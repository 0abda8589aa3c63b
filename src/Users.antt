-- ===== src/Users.antt =====
-- The pages of src/main/js/modules/users.js: login, subscription, account and logout.
use gl_tomsxp.Common.{
  String, Option, none, some, Bool, true, false, List, [], ◌∷◌, truthy, if◌then◌else◌, Outcome,
  done, threw,
}
use gl_tomsxp.Client.{
  Client, my_items_view, has_login_field, login_field, Json, json, get, post, empty_header, flag,
  user, header, inject, go, is_user_connected, call_http, call_class, set_current_user,
}

-- What the server answers to a login or a subscription.
pub record Answer : Type 0 where
  pub error : Option String
  pub token : Option String
  pub userid : Option String
  pub login_name : Option String

-- `$.param({ login: …, password: … })`
abbrev pub credentials : Option String → Option String → List (String × Json)
credentials name password = ("login", json name) ∷ ("password", json password) ∷ []

-- The scope of the login page: the form and the two error banners.
pub record Login : Type 0 where
  pub form_server : String
  pub form_login : Option String
  pub form_password : Option String
  pub error_login : Bool
  pub error_server : Bool

unfoldable pub open_login : Client → Client × Login
unfolding header
open_login c = (
  header (record empty_header { title = some "Login" }) c,
  record {
    form_server = c.server;
    form_login = none;
    form_password = none;
    error_login = false;
    error_server = false;
  },
)

-- `$scope.submit`, up to the request.
unfoldable pub submit_login : Client × Login → Client × Login
unfolding call_http
submit_login (c, s) = (
  call_http post "/api/users/login" (credentials s.form_login s.form_password)
      (record c { server = s.form_server }),
  record s { error_login = false; error_server = false },
)

-- The answer arrives. `obj.error` is read first, so an answer with no value throws.
unfoldable pub login_reply : Option Answer → Client × Login → Outcome (Client × Login)
unfolding go is_user_connected
login_reply none (c, s) = threw (c, s)
login_reply (some obj) (c, s) =
    if truthy obj.error
    then done (c, record s { error_login = true })
    else done (
      go my_items_view (
          is_user_connected (record c {
            token = obj.token;
            app = record (c.app) { user_id = obj.userid; user_nick = obj.login_name };
          })),
      s,
    )

-- The request fails.
unfoldable pub login_failed : Client × Login → Client × Login
login_failed (c, s) = (c, record s { error_server = true })

pub record Subscribe : Type 0 where
  pub form_server : String
  pub form_login : Option String
  pub form_password : Option String
  pub error : Bool
  pub error_server : Bool

unfoldable pub open_subscribe : Client → Client × Subscribe
unfolding header
open_subscribe c = (
  header (record empty_header { title = some "Subscribe"; back = some (flag true) }) c,
  record {
    form_server = c.server;
    form_login = none;
    form_password = none;
    error = false;
    error_server = false;
  },
)

unfoldable pub submit_subscribe : Client × Subscribe → Client × Subscribe
unfolding call_http
submit_subscribe (c, s) = (
  call_http post "/api/users/subscribe" (credentials s.form_login s.form_password)
      (record c { server = s.form_server }),
  record s { error = false; error_server = false },
)

-- `setCurrentUser(login)` takes the free name `login`: the element of that id, if the page shown
-- when the answer arrives has one, and otherwise an error.
unfoldable pub subscribe_reply : Option Answer → Client → Outcome Client
unfolding go set_current_user
subscribe_reply answer c =
    if has_login_field c.page
    then (let c' : Client = record c { app = set_current_user (some login_field) c.app } in
        elim answer [
          | none ↦ threw c'
          | some obj ↦ done (
              go my_items_view
                (record c' { token = obj.token; app = record (c'.app) { user_id = obj.userid } }))
        ])
    else threw c

unfoldable pub subscribe_failed : Client × Subscribe → Client × Subscribe
subscribe_failed (c, s) = (c, record s { error_server = true })

-- The account page: the user is asked for, and put into the scope when he arrives.
unfoldable pub open_account : Client → Client
unfolding header inject is_user_connected call_class
open_account c =
    let c' : Client =
      header (record empty_header { title = some "Account" }) (is_user_connected (inject user c)) in
    call_class user get c'.app.user_id [] c'

unfoldable pub open_logout : Client → Client
unfolding header is_user_connected call_http set_current_user
open_logout c =
    let c' : Client =
      call_http get "/api/users/logout" []
        (header (record empty_header { title = some "logout" }) (is_user_connected c)) in
    record c' {
      app = record (set_current_user none c'.app) { user_id = none };
      user_logged = false;
    }
