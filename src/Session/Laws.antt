-- ===== src/Session/Laws.antt =====
-- The session in every order of steps (src/main/js/modules/users.js and app.js).
use gl_tomsxp.Common.{
  ◌∙◌, ap, ◌≡◌, String, none, some, Bool, true, false, arith, state, is_some, if◌then◌else◌,
}
use gl_tomsxp.Client.{
  inject, is_user_connected, send, settings, Client, Class, base, Page, login, go,
}
use gl_tomsxp.Users.{
  open_login, submit_login, login_reply, open_subscribe, submit_subscribe, subscribe_reply,
  open_account, open_logout,
}
use gl_tomsxp.Search.{open_search, open_search_view_item}
use gl_tomsxp.Items
use gl_tomsxp.Settings.{open_settings, open_password, Password, password_reply, open_contact}
use gl_tomsxp.Messages.Inbox.{open_messages}
use gl_tomsxp.Messages.Compose.{open_compose}
use gl_tomsxp.Contracts.Form
use gl_tomsxp.Contracts.View.{open_contracts, open_contract}
use gl_tomsxp.Session.Opening.{Opening}
use gl_tomsxp.Session.Moving.{Moving, Step-Moving}
use gl_tomsxp.Session.{open_home, open_page, enter, Step, Reach}

-- The side menu shows the entries of a user only if a user id is known.
abbrev pub IsFlagged : Client → Type 0
IsFlagged c = c.user_logged ≡ true → is_some c.app.user_id ≡ true

-- The server in the URL of a class is chosen.
abbrev pub HasBase : Class → String → Client → Type 0
HasBase k b c = base k c.bases ≡ some b

-- What a step does to what must be kept.
record Keeps (c d : Client) : Type 0 where
  flag : IsFlagged c → IsFlagged d
  bases : (k : Class) (b : String) → HasBase k b c → HasBase k b d

Keeps-Opening : (c : Client) → Opening (Keeps c)
unfolding go inject is_user_connected send
Keeps-Opening c = record {
  goes = λ p d k. record { flag = k.flag; bases = k.bases };
  shows = λ bar d same k. record { flag = λ f l. ap is_some same.0 ∙ k.flag f l; bases = k.bases };
  injects = λ j d k. record {
    flag = λ f. ground (arith, k.flag f);
    bases = λ i b h. ground (arith, k.bases i b h);
  };
  guards =
      λ d k. record { flag = λ f. ground arith; bases = λ i b h. ground (arith, k.bases i b h) };
  sends = λ r d o k. record { flag = k.flag; bases = k.bases };
  leaves = λ d k. record { flag = λ f l. cc; bases = k.bases };
  enters = λ p d k. record { flag = k.flag; bases = k.bases };
}

Keeps-Moving : (c : Client) → Moving (Keeps c)
unfolding send
Keeps-Moving c = record {
  opening = Keeps-Opening c;
  presses = λ r d q k. record { flag = k.flag; bases = k.bases };
}

Step-Keeps : {c d : Client} → Step c d → Keeps c d
unfolding submit_login login_reply submit_subscribe subscribe_reply go
Step-Keeps (Step.logs_in s) = record { flag = λ h. ground arith; bases = λ k b h. ground arith }
Step-Keeps (Step.login_answered a s) = record {
  flag = λ h. ground arith;
  bases = λ k b h. ground arith;
}
Step-Keeps (Step.subscribes s) = record { flag = λ h. ground arith; bases = λ k b h. ground arith }
Step-Keeps (Step.subscribe_answered a known) = record {
  flag = λ h. ground arith;
  bases = λ k b h. ground arith;
}
Step-Keeps {c} step =
    Step-Moving (Keeps-Moving c) step tt (record { flag = λ f. f; bases = λ k b h. h })

-- In every order of links, transitions, clicks and answers the side menu shows the entries of a user
-- only while a user id is known, if it is so at the beginning.
pub Reach-IsFlagged : {c d : Client} → Reach c d → IsFlagged c → IsFlagged d
Reach-IsFlagged Reach.here h = h
Reach-IsFlagged (Reach.next r step) h = (Step-Keeps step).flag (Reach-IsFlagged r h)

-- The pages whose controller begins with `isUserConnected`.
abbrev pub is_guarded : Page → Bool
is_guarded Page.home = false
is_guarded Page.search = false
is_guarded (Page.search_view_item id) = false
is_guarded Page.view_contracts = false
is_guarded Page.add_contract = false
is_guarded (Page.view_contract id) = false
is_guarded (Page.edit_contract id) = false
is_guarded Page.subscribe = false
is_guarded Page.login = false
is_guarded Page.password = false
is_guarded _ = true

-- Without a user id, entering a page leads on to the login page exactly if the page is guarded, or
-- is 'home' and no current user is set; the pages of contracts and of the password are not guarded.
pub enter-guard :
    (p : Page) (c : Client)
    → c.pending ≡ some p
    → c.app.user_id ≡ none
    → c.app.current_user ≡ none
    → (enter c).pending
      ≡ (if is_guarded p then some login else elim p [ Page.home ↦ some login | _ ↦ none ])
unfolding enter open_page open_home open_search open_contact open_search_view_item Items.open_items
    Items.open_add Items.open_view Items.open_edit Items.open_sub open_messages open_compose
    open_contracts Form.open_add open_contract Form.open_edit open_subscribe open_login open_logout
    open_account open_settings open_password
enter-guard Page.home c e h h' = ground arith
enter-guard _ c e h h' = ground arith

-- After a change of the password the logout page is entered; if the server's answer, without an
-- error, arrives afterwards, the settings are asked for, which lead on to the login page.
pub settings_after_change :
    (c : Client) (s : Password)
    → (open_settings (record (state (password_reply (some none) (open_logout c, s))).0 {
      page = settings;
      pending = none;
    })).pending
      ≡ some login
unfolding open_settings password_reply open_logout
settings_after_change c s = ground arith
