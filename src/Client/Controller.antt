-- ===== src/Client/Controller.antt =====
-- `appController` of src/main/js/modules/app.js.
use gl_tomsxp.Common.{String, Option, none, some, Bool, true, false, loose_eq, if◌then◌else◌, ◌==◌}

-- What the free name `login` means in a page that has an element of that id: the element.
pub data Element : Type 0 where
  login_field : Element

-- `user_id` and `user_nick` are put on the controller by the login page. `context_id` is `none`
-- for the number 0 that it starts with.
pub record App : Type 0 where
  pub back_url : Option String
  pub context_button : Option String
  pub title : String
  pub current_user : Option Element
  pub context_id : Option String
  pub user_id : Option String
  pub user_nick : Option String

unfoldable pub initial_app : App
initial_app = record {
  back_url = none;
  context_button = none;
  title = "SXP network";
  current_user = none;
  context_id = none;
  user_id = none;
  user_nick = none;
}

-- The values that the pages give to `back`.
pub data Back : Type 0 where
  flag : Bool → Back
  null yes_text : Back

-- `back == true`, where the text 'yes' is compared as the number NaN.
abbrev pub is_true : Back → Bool
is_true (flag b) = b
is_true null = false
is_true yes_text = false

-- The argument of `configHeader`; `none` where the property is absent.
pub record Header : Type 0 where
  pub back : Option Back
  pub title : Option String
  pub context_button : Option (Option String)
  pub context_id : Option (Option String)

abbrev pub empty_header : Header
empty_header = record { back = none; title = none; context_button = none; context_id = none }

unfoldable pub set_current_user : Option Element → App → App
set_current_user user app = record app { current_user = user }

abbrev pub get_current_user : App → Option Element
get_current_user app = app.current_user

unfoldable pub set_back_url : Option String → App → App
set_back_url url app = record app { back_url = url }

unfoldable pub show_back_url : App → Bool
show_back_url app = if loose_eq app.back_url none then false else true

unfoldable pub set_title : String → App → App
set_title title app = record app { title = title }

unfoldable pub set_context_id : Option String → App → App
set_context_id id app = record app { context_id = id }

abbrev pub get_context_id : App → Option String
get_context_id app = app.context_id

unfoldable pub show_context_button : String → App → Bool
show_context_button button app = elim app.context_button [ none ↦ false | some b ↦ button == b ]

unfoldable pub set_context_button : Option String → App → App
set_context_button button app = record app { context_button = button }

configure_back : Option Back → App → App
unfolding set_back_url
configure_back (some back) app = set_back_url (if is_true back then some "true" else none) app
configure_back none app = set_back_url none app

configure_title : Option String → App → App
unfolding set_title
configure_title (some title) app = set_title title app
configure_title none app = set_title "SXP network" app

configure_button : Option (Option String) → App → App
unfolding set_context_button
configure_button (some button) app = set_context_button button app
configure_button none app = set_context_button none app

unfoldable pub configure_id : Option (Option String) → App → App
unfolding set_context_id
configure_id (some id) app = set_context_id id app
configure_id none app = app

unfoldable pub config_header : Header → App → App
unfolding configure_back configure_title configure_button configure_id
config_header obj app =
    configure_id obj.context_id (
      configure_button obj.context_button (configure_title obj.title (configure_back obj.back app)))
