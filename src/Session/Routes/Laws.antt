-- ===== src/Session/Routes/Laws.antt =====
-- URLs and pages (the states that the modules of src/main/js/modules declare).
use gl_tomsxp.Common.{◌≡◌, String, Option, none, List, ◌≢◌, refl}
use gl_tomsxp.Client.{Page}
use gl_tomsxp.Session.Routes.{
  Segment, IsMatcher, page_at, routes, href, home_routes, search_routes, item_routes,
  message_routes, contract_routes, user_routes, settings_routes, contact_routes,
}

-- The id of a page that is opened for one object is given.
abbrev pub HasId : Page → Type 0
HasId (Page.search_view_item id) = id ≢ none
HasId (Page.my_items_view_one id) = id ≢ none
HasId (Page.my_items_edit id) = id ≢ none
HasId (Page.my_items_sub id) = id ≢ none
HasId (Page.view_contract id) = id ≢ none
HasId (Page.edit_contract id) = id ≢ none
HasId _ = Unit

-- The URL of a page leads to that page, with its id, and to no other state declared before it, if
-- ui-router matches URLs as its documentation says.
pub page_at-href :
    (matches : List Segment → List String → Option (Option String)) (p : Page)
    → IsMatcher matches
    → HasId p
    → page_at matches routes (href p) ≡ p
unfolding page_at routes href home_routes search_routes item_routes message_routes contract_routes
    user_routes settings_routes contact_routes
page_at-href matches (Page.search_view_item none) m h = absurd (h refl)
page_at-href matches (Page.my_items_view_one none) m h = absurd (h refl)
page_at-href matches (Page.my_items_edit none) m h = absurd (h refl)
page_at-href matches (Page.my_items_sub none) m h = absurd (h refl)
page_at-href matches (Page.view_contract none) m h = absurd (h refl)
page_at-href matches (Page.edit_contract none) m h = absurd (h refl)
page_at-href matches _ m h = simp (m.words, m.both_end, m.url_longer, m.url_shorter, m.last_param)
