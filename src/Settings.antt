-- ===== src/Settings.antt =====
-- The pages of src/main/js/modules/settings.js and src/main/js/modules/contact.js.
pub mod Laws
mod Tests
use gl_tomsxp.Common.{
  String, Option, none, some, Bool, true, false, List, [], ◌∷◌, loose_eq, truthy, ◌==◌,
  if◌then◌else◌, Outcome, done, threw,
}
use gl_tomsxp.Client.{
  Client, Json, json, get, post, Class, user, item, empty_header, flag, null, header, inject,
  is_user_connected, call_class, call_http, go, settings, logout, my_items_view,
}

unfoldable pub open_settings : Client → Client
unfolding header inject is_user_connected call_class
open_settings c =
    let c' : Client =
      header
        (record empty_header {
          context_button = some (some "");
          title = some "Settings";
          back = some null;
        })
        (is_user_connected (inject user c)) in
    call_class user get c'.app.user_id [] c'

-- The page that changes the password does not check that a user is connected.
unfoldable pub open_password : Client → Client
unfolding header inject call_class
open_password c =
    let c' : Client =
      header
        (record empty_header {
          context_button = some (some "");
          title = some "Settings : change password";
          back = some (flag true);
        })
        (inject user c) in
    call_class user get c'.app.user_id [] c'

-- `$scope.form` of that page.
pub record Fields : Type 0 where
  pub previous : Option String
  pub pass1 : Option String
  pub pass2 : Option String

pub record Password : Type 0 where
  pub form : Option Fields
  pub error : Bool
  pub changed : Bool
  pub error_login : Bool
  pub error_server : Bool

-- The branch for two equal passwords: `length` of one that is missing throws, and an empty one does
-- nothing.
unfoldable pub change : Option String → Fields → Client × Password → Outcome (Client × Password)
change none f p = threw p
change (some pass) f (c, s) =
    if pass == ""
    then done (c, s)
    else done (
      go logout (
          call_http post "/api/users/password"
            (("password", json f.previous)
              ∷ ("passwordNew", json f.pass1)
              ∷ ("passwordConfirm", json f.pass2)
              ∷ [])
            c),
      record s { error = false; changed = true },
    )

-- `$scope.submit`; it throws while `$scope.form` is undefined.
unfoldable pub submit_password : Client × Password → Outcome (Client × Password)
unfolding change go call_http
submit_password (c, s) = elim s.form [
  | none ↦ threw (c, s)
  | some f ↦
      if loose_eq f.pass1 f.pass2
      then change f.pass1 f (c, s)
      else done (c, record s { error = true; changed = false })
]

-- The server answers with an object that may have an error; the answer `none` has no value, and
-- reading its error throws.
unfoldable pub password_reply :
    Option (Option String) → Client × Password → Outcome (Client × Password)
unfolding go
password_reply none p = threw p
password_reply (some error) (c, s) =
    if truthy error then done (c, record s { error_login = true }) else done (go settings c, s)

unfoldable pub password_failed : Client × Password → Client × Password
password_failed (c, s) = (c, record s { error_server = true })

-- The page 'contact'.
unfoldable pub open_contact : Client → Client
unfolding header inject is_user_connected
open_contact c =
    header
      (record empty_header {
        title = some "Contact";
        back = some (flag false);
        context_button = some none;
      })
      (is_user_connected (inject item c))

-- What the contact form holds; nothing of it is sent yet.
pub record Mail : Type 0 where
  pub name : Option String
  pub mail : Option String
  pub message : Option String

unfoldable pub submit_contact : Option Mail → Client → Outcome Client
unfolding go
submit_contact none c = threw c
submit_contact (some m) c = done (go my_items_view c)
