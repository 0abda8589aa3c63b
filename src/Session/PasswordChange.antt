-- ===== src/Session/PasswordChange.antt =====
-- The change of the password across pages (src/main/js/modules/settings.js): the logout page is asked
-- for at once, and the answer leads to the settings when it comes.
use gl_tomsxp.Common.{eq_iff, ◌≡◌, none, some, String, false, ◌==◌, state, arith}
use gl_tomsxp.Client.{Client, login, logout}
use gl_tomsxp.Users.{open_logout, open_login}
use gl_tomsxp.Settings.{Password, Fields, submit_password, password_reply, open_settings}
use gl_tomsxp.Session.{Step, Reach, enter, open_page}

-- The button, the logout page, the server's answer without an error, and the pages that follow.
abbrev pub asked : Password → Client → Client
asked s c = enter (state (submit_password (c, s))).0

abbrev pub answered : Password → Client → Client
answered s c = enter (enter (state (password_reply (some none) (asked s c, s))).0)

-- When a user changes his password and the answer comes after the logout page was entered, he ends
-- on the login page, by way of the settings, with no user id, and still with the old token.
pub change_ends_at_login :
    (c : Client) (s : Password) (f : Fields) (pass : String)
    → s.form ≡ some f
    → f.pass1 ≡ some pass
    → f.pass2 ≡ some pass
    → (pass == "") ≡ false
    → Reach c (answered s c)
      × ((asked s c).page ≡ logout)
      × ((answered s c).page ≡ login)
      × ((answered s c).pending ≡ none)
      × ((answered s c).app.user_id ≡ none)
      × ((answered s c).token ≡ c.token)
unfolding enter open_page open_login open_logout open_settings submit_password password_reply
change_ends_at_login c s f pass e e' e'' h = (
  Reach.next
      (Reach.next
        (Reach.next (Reach.next (Reach.next Reach.here (Step.password_submitted s)) Step.enters)
          (Step.password_answered (some none) s))
        Step.enters)
      Step.enters,
  ground (arith, eq_iff pass pass),
  ground (arith, eq_iff pass pass),
  ground (arith, eq_iff pass pass),
  ground (arith, eq_iff pass pass),
  ground (arith, eq_iff pass pass),
)
