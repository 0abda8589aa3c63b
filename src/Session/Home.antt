-- ===== src/Session/Home.antt =====
-- The current user of the application and the page 'home' (src/main/js/modules/app.js).
use gl_tomsxp.Common.{◌∙◌, refl, some, ◌≡◌, none, arith}
use gl_tomsxp.Client.{inject, is_user_connected, send, set_current_user, login, Client, go}
use gl_tomsxp.Users.{login_reply, submit_login, submit_subscribe}
use gl_tomsxp.Session.Opening.{Opening}
use gl_tomsxp.Session.Moving.{Moving, Step-Moving}
use gl_tomsxp.Session.{login_reply, Along, open_home, Step}

-- The steps other than the answer to a subscription.
abbrev pub IsUnsubscribed : (c d : Client) → Step c d → Type 0
IsUnsubscribed _ _ (Step.subscribe_answered a known) = ⊥
IsUnsubscribed _ _ _ = Unit

-- No current user is set.
abbrev HasNoUser : Client → Type 0
HasNoUser c = c.app.current_user ≡ none

HasNoUser-Opening : Opening HasNoUser
unfolding go inject is_user_connected send set_current_user
HasNoUser-Opening = record {
  goes = λ p c h. h;
  shows = λ bar c same h. same.1 ∙ h;
  injects = λ k c h. ground (arith, h);
  guards = λ c h. ground (arith, h);
  sends = λ r c o h. h;
  leaves = λ c h. refl;
  enters = λ p c h. h;
}

HasNoUser-Moving : Moving HasNoUser
unfolding send
HasNoUser-Moving = record { opening = HasNoUser-Opening; presses = λ r c q h. h }

Step-current_user :
    {c d : Client} (step : Step c d)
    → IsUnsubscribed c d step
    → c.app.current_user ≡ none
    → d.app.current_user ≡ none
unfolding submit_login login_reply submit_subscribe go
Step-current_user (Step.logs_in s) q h = ground (arith, h)
Step-current_user (Step.login_answered a s) q h = ground (arith, h)
Step-current_user (Step.subscribes s) q h = ground (arith, h)
Step-current_user (Step.subscribe_answered a known) q h = absurd q
Step-current_user step q h = Step-Moving HasNoUser-Moving step q h

pub Along-current_user :
    {c d : Client}
    → Along IsUnsubscribed c d
    → c.app.current_user ≡ none
    → d.app.current_user ≡ none
Along-current_user Along.here h = h
Along-current_user (Along.next r step q) h = Step-current_user step q (Along-current_user r h)

-- If no current user is set, then in every order of steps but an answer to a subscription, logins
-- included, 'home' leads on to the login page.
pub Along-open_home :
    {c d : Client}
    → Along IsUnsubscribed c d
    → c.app.current_user ≡ none
    → (open_home d).pending ≡ some login
unfolding open_home
Along-open_home r h = ground (arith, Along-current_user r h)
