-- ===== src/Client/Pages.antt =====
-- The states of the router, as the modules of src/main/js/modules declare them. A page that is
-- opened for one object carries the id of `$stateParams`, `none` where it is undefined.
use gl_tomsxp.Common.{String, Option, Bool, true, false}

pub data Page : Type 0 where
  home search contact : Page
  search_view_item : Option String → Page
  my_items_view my_items_add : Page
  my_items_view_one my_items_edit my_items_sub : Option String → Page
  messages add_message : Page
  view_contracts add_contract : Page
  view_contract edit_contract : Option String → Page
  subscribe login logout account : Page
  settings password : Page

-- An element with the id "login" stands in accounts/login.html and accounts/subscribe.html only.
abbrev pub has_login_field : Page → Bool
has_login_field login = true
has_login_field subscribe = true
has_login_field _ = false
