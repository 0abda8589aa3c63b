-- ===== src/Settings/Laws.antt =====
-- What the page that changes the password does on each branch (src/main/js/modules/settings.js).
use gl_tomsxp.Common.{
  ◌&&◌, is_some, not, true, Bool, Option, ◌⊎◌, ◌≡◌, String, none, some, [], ◌∷◌, arith, done, threw,
  state, loose_eq, ◌==◌, if◌then◌else◌,
}
use gl_tomsxp.Client.{Client, Request, json, post, Channel, logout}
use gl_tomsxp.Settings.{Fields, Password, submit_password}

-- What the page posts.
abbrev pub change_request : Client → Fields → Request
change_request c f = record {
  channel = Channel.http;
  verb = post;
  server = c.server;
  route = "/api/users/password";
  id = none;
  body =
      ("password", json f.previous)
      ∷ ("passwordNew", json f.pass1)
      ∷ ("passwordConfirm", json f.pass2)
      ∷ [];
  token = c.token;
}

-- If the first copy of the new password was touched, the button does not throw, and the password is
-- posted, and the logout page asked for at once, exactly if both copies are the same text, and not
-- empty.
pub submit_password-sent :
    (c : Client) (s : Password) (f : Fields) (pass : String)
    → s.form ≡ some f
    → f.pass1 ≡ some pass
    → (submit_password (c, s) ≡ done (state (submit_password (c, s))))
      × ((state (submit_password (c, s))).0.sent ≡ (
          if loose_eq (some pass) f.pass2
          then (if pass == "" then c.sent else change_request c f ∷ c.sent)
          else c.sent))
      × ((state (submit_password (c, s))).0.pending ≡ (
          if loose_eq (some pass) f.pass2
          then (if pass == "" then c.pending else some logout)
          else c.pending))
unfolding submit_password
submit_password-sent c s f pass e e' = ground arith

-- If the form is untouched, or both copies of the new password are, the button throws, and neither
-- banner is set.
pub submit_password-untouched :
    (c : Client) (s : Password)
    → (s.form ≡ none) ⊎ ((f : Fields) × (s.form ≡ some f) × (f.pass1 ≡ none) × (f.pass2 ≡ none))
    → submit_password (c, s) ≡ threw (c, s)
unfolding submit_password
submit_password-untouched c s h = ground arith

-- The form is untouched, or both copies of the new password are.
abbrev pub is_untouched : Option Fields → Bool
is_untouched none = true
is_untouched (some f) = not (is_some f.pass1) && not (is_some f.pass2)

-- The button throws exactly if the form is untouched, or both copies of the new password are, and
-- then it changes nothing.
pub submit_password-threw :
    (c : Client) (s : Password)
    → submit_password (c, s)
      ≡ (if is_untouched s.form then threw (c, s) else done (state (submit_password (c, s))))
unfolding submit_password
submit_password-threw c s = ground arith
