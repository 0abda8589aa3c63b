-- ===== src/Session/Guard.antt =====
-- The pages after a session has ended (isUserConnected of src/main/js/modules/app.js, and the page
-- 'logout' of users.js).
use gl_tomsxp.Common.{refl, ◌≡◌, ap, ◌∙◌, Option, none, some, if◌then◌else◌}
use gl_tomsxp.Client.{Client, Page, login}
use gl_tomsxp.Users.{open_logout}
use gl_tomsxp.Session.{Along, Step, enter}
use gl_tomsxp.Session.Refinement.{Account, account_of, effect, label, page_label, Step-effect}
use gl_tomsxp.Session.Tokens.{IsQuiet}
use gl_tomsxp.Session.Home.{IsUnsubscribed, Along-current_user}
use gl_tomsxp.Session.Laws.{is_guarded, enter-guard}

page_effect :
    (o : Option Page) (a : Account) → a.user ≡ none → (effect (page_label o) a).user ≡ none
page_effect none a h = h
page_effect (some Page.logout) a h = refl
page_effect (some _) a h = h

quiet_effect :
    {c d : Client} (step : Step c d) (a : Account)
    → IsQuiet c d step
    → a.user ≡ none
    → (effect (label step) a).user ≡ none
quiet_effect {c} Step.enters a q h = page_effect c.pending a h
quiet_effect (Step.logs_in s) a q h = h
quiet_effect (Step.subscribes s) a q h = h
quiet_effect (Step.login_answered r s) a q h = absurd q
quiet_effect (Step.subscribe_answered r known) a q h = absurd q
quiet_effect _ a q h = h

Along-user_id : {c d : Client} → Along IsQuiet c d → c.app.user_id ≡ none → d.app.user_id ≡ none
Along-user_id Along.here h = h
Along-user_id (Along.next {d = d} r step q) h =
    ap (λ (a : Account). a.user) (Step-effect step)
    ∙ quiet_effect step (account_of d) q (Along-user_id r h)

quiet-IsUnsubscribed : {c d : Client} (step : Step c d) → IsQuiet c d step → IsUnsubscribed c d step
quiet-IsUnsubscribed (Step.subscribe_answered a known) q = absurd q
quiet-IsUnsubscribed _ q = tt

Along-IsUnsubscribed : {c d : Client} → Along IsQuiet c d → Along IsUnsubscribed c d
Along-IsUnsubscribed Along.here = Along.here
Along-IsUnsubscribed (Along.next r step q) =
    Along.next (Along-IsUnsubscribed r) step (quiet-IsUnsubscribed step q)

-- Once the logout page has been entered, and until the next answer to a login or a subscription, in
-- every order of other steps: entering a page whose controller asks for the user, or 'home', leads on
-- to the login page, and entering any other page leads nowhere else.
pub Along-guard :
    (c : Client) {d : Client} (p : Page)
    → Along IsQuiet (open_logout c) d
    → d.pending ≡ some p
    → (enter d).pending
      ≡ (if is_guarded p then some login else elim p [ Page.home ↦ some login | _ ↦ none ])
Along-guard c {d} p r e =
    enter-guard p d e (Along-user_id r (unfold open_logout in refl))
      (Along-current_user (Along-IsUnsubscribed r) (unfold open_logout in refl))
