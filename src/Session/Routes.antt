-- ===== src/Session/Routes.antt =====
-- The states that the modules of src/main/js/modules declare to ui-router, each with its URL, its
-- template and its controller, and the URLs of the pages. A URL is the list of what stands between
-- its slashes. The matching of a URL is ui-router's and a parameter.
pub mod Laws
use gl_tomsxp.Common.{
  ◌≡◌, refl, String, ◌==◌, Option, none, some, List, [], ◌∷◌, ◌++◌, if◌then◌else◌,
}
use gl_tomsxp.Client.{Page}

-- A piece of a pattern: a word, or `:id`.
pub data Segment : Type 0 where
  word : String → Segment
  param : Segment

-- The controller stands as the page that it opens; its name, where it has one, is kept.
pub record Route : Type 0 where
  pub name : String
  pub url : List Segment
  pub template : String
  pub controller : Option String
  pub page : Option String → Page

-- A state whose URL has the parameter `:id`, or has none.
route : String → List Segment → String → Option String → (Option String → Page) → Route
route name url template controller page = record {
  name = name;
  url = url;
  template = template;
  controller = controller;
  page = page;
}

unfoldable pub home_routes : List Route
unfolding route
home_routes = route "home" (word "" ∷ []) "home.html" none (λ id. Page.home) ∷ []

unfoldable pub search_routes : List Route
unfolding route
search_routes =
    route "search" (word "search" ∷ []) "search.html" none (λ id. Page.search)
    ∷ route "searchViewItem" (word "search" ∷ word "view" ∷ param ∷ []) "items/item.html" none
        Page.search_view_item
    ∷ []

unfoldable pub item_routes : List Route
unfolding route
item_routes =
    route "myItemsView" (word "myitems" ∷ []) "items/items.html" (some "viewItems")
      (λ id. Page.my_items_view)
    ∷ route "myItemsViewOne" (word "myitems" ∷ word "view" ∷ param ∷ []) "items/item.html"
        (some "viewItem") Page.my_items_view_one
    ∷ route "myItemsAdd" (word "myitems" ∷ word "add" ∷ []) "items/item-form.html" (some "addItem")
        (λ id. Page.my_items_add)
    ∷ route "myItemsEdit" (word "myitems" ∷ word "edit" ∷ param ∷ []) "items/item-form.html"
        (some "editItem") Page.my_items_edit
    ∷ route "myItemsSub" (word "myitems" ∷ word "sub" ∷ param ∷ []) "items/item-form.html"
        (some "subItem") Page.my_items_sub
    ∷ []

unfoldable pub message_routes : List Route
unfolding route
message_routes =
    route "messages" (word "messages" ∷ []) "messages.html" none (λ id. Page.messages)
    ∷ route "addMessage" (word "messages" ∷ word "new" ∷ []) "newMessage.html" none
        (λ id. Page.add_message)
    ∷ []

unfoldable pub contract_routes : List Route
unfolding route
contract_routes =
    route "viewContracts" (word "contracts" ∷ []) "contracts/contracts.html" (some "viewContracts")
      (λ id. Page.view_contracts)
    ∷ route "viewContract" (word "contracts" ∷ word "view" ∷ param ∷ []) "contracts/contract.html"
        (some "viewContract") Page.view_contract
    ∷ route "editContract" (word "contracts" ∷ word "edit" ∷ param ∷ [])
        "contracts/contract-form.html" (some "editContract") Page.edit_contract
    ∷ route "addContract" (word "contracts" ∷ word "add" ∷ []) "contracts/contract-form.html"
        (some "addContract") (λ id. Page.add_contract)
    ∷ []

unfoldable pub user_routes : List Route
unfolding route
user_routes =
    route "subscribe" (word "subscribe" ∷ []) "accounts/subscribe.html" (some "subscribe")
      (λ id. Page.subscribe)
    ∷ route "login" (word "login" ∷ []) "accounts/login.html" (some "login") (λ id. Page.login)
    ∷ route "logout" (word "logout" ∷ []) "accounts/logout.html" (some "logout") (λ id. Page.logout)
    ∷ route "account" (word "account" ∷ []) "accounts/account.html" (some "account")
        (λ id. Page.account)
    ∷ []

unfoldable pub settings_routes : List Route
unfolding route
settings_routes =
    route "settings" (word "settings" ∷ []) "settings/settings.html" (some "settings")
      (λ id. Page.settings)
    ∷ route "password" (word "password" ∷ []) "settings/password.html" (some "password")
        (λ id. Page.password)
    ∷ []

unfoldable pub contact_routes : List Route
unfolding route
contact_routes =
    route "contact" (word "contact" ∷ []) "contact.html" (some "contact") (λ id. Page.contact) ∷ []

-- The order of the dependencies of the module 'app', and its own state last.
unfoldable pub routes : List Route
unfolding item_routes search_routes message_routes user_routes settings_routes contract_routes
    contact_routes home_routes
routes =
    item_routes ++ search_routes ++ message_routes ++ user_routes ++ settings_routes
    ++ contract_routes ++ contact_routes ++ home_routes

-- An id that is missing leaves its place empty.
abbrev shown_id : Option String → String
shown_id none = ""
shown_id (some id) = id

-- The URL of a page, with the id in the place of `:id`.
unfoldable pub href : Page → List String
href Page.home = "" ∷ []
href Page.search = "search" ∷ []
href Page.contact = "contact" ∷ []
href (Page.search_view_item id) = "search" ∷ "view" ∷ shown_id id ∷ []
href Page.my_items_view = "myitems" ∷ []
href Page.my_items_add = "myitems" ∷ "add" ∷ []
href (Page.my_items_view_one id) = "myitems" ∷ "view" ∷ shown_id id ∷ []
href (Page.my_items_edit id) = "myitems" ∷ "edit" ∷ shown_id id ∷ []
href (Page.my_items_sub id) = "myitems" ∷ "sub" ∷ shown_id id ∷ []
href Page.messages = "messages" ∷ []
href Page.add_message = "messages" ∷ "new" ∷ []
href Page.view_contracts = "contracts" ∷ []
href Page.add_contract = "contracts" ∷ "add" ∷ []
href (Page.view_contract id) = "contracts" ∷ "view" ∷ shown_id id ∷ []
href (Page.edit_contract id) = "contracts" ∷ "edit" ∷ shown_id id ∷ []
href Page.subscribe = "subscribe" ∷ []
href Page.login = "login" ∷ []
href Page.logout = "logout" ∷ []
href Page.account = "account" ∷ []
href Page.settings = "settings" ∷ []
href Page.password = "password" ∷ []

-- What ui-router's documentation says of the matching of a URL, piece by piece.
pub record IsMatcher (matches : List Segment → List String → Option (Option String)) : Type 0 where
  pub both_end : matches [] [] ≡ some none
  pub url_longer : (v : String) (vs : List String) → matches [] (v ∷ vs) ≡ none
  pub url_shorter : (s : Segment) (ss : List Segment) → matches (s ∷ ss) [] ≡ none
  pub words :
      (w v : String) (ss : List Segment) (vs : List String)
      → matches (word w ∷ ss) (v ∷ vs) ≡ (if w == v then matches ss vs else none)
  pub last_param : (v : String) → matches (param ∷ []) (v ∷ []) ≡ some (some v)

module _ (matches : List Segment → List String → Option (Option String)) where
  -- The first state whose URL matches; failing that, `otherwise("/")`.
  unfoldable pub page_at : List Route → List String → Page
  page_at [] path = Page.home
  page_at (r ∷ rs) path = elim (matches r.url path) [ none ↦ page_at rs path | some id ↦ r.page id ]
