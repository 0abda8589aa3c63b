-- ===== src/Session/Opening.antt =====
-- What the controllers of the pages in src/main/js/modules do to the client when a page is opened: an
-- interface of few operations, by which a property of the client is shown to survive every page.
use gl_tomsxp.Common.{
  is_some, Bool, true, false, if◌then◌else◌, ◌≡◌, refl, false, String, Option, none, some, [],
}
use gl_tomsxp.Client.{
  config_header, empty_header, App, Client, Page, Class, Request, get, http_request, class_request,
  oboe_request, send, go, inject, is_user_connected, set_current_user,
}
use gl_tomsxp.Users.{open_login, open_subscribe, open_account, open_logout}
use gl_tomsxp.Search.{open_search, open_search_view_item}
use gl_tomsxp.Items
use gl_tomsxp.Settings.{open_settings, open_password, open_contact}
use gl_tomsxp.Messages.Inbox.{open_messages}
use gl_tomsxp.Messages.Compose.{open_compose}
use gl_tomsxp.Contracts.Form
use gl_tomsxp.Contracts.View.{open_contracts, open_contract}
use gl_tomsxp.Session.{open_home, open_page, enter}
use gl_tomsxp.Session.Enter.{enter-elim}

-- The requests of a page that is opened, as the client `c` sends them.
pub data Opens (c : Client) : Request → Type 0 where
  gets_user : (id : Option String) → Opens c (class_request Class.user get id [] c)
  gets_item : (id : Option String) → Opens c (class_request Class.item get id [] c)
  gets_contract : (id : Option String) → Opens c (class_request Class.contract get id [] c)
  gets_users : Opens c (http_request get "/api/users/" [] c)
  gets_logout : Opens c (http_request get "/api/users/logout" [] c)
  gets_messages : Opens c (oboe_request get "/api/messages/" [] c.token c)

pub Opens-get : {c : Client} {r : Request} → Opens c r → r.verb ≡ get
Opens-get (gets_user id) = refl
Opens-get _ = refl

-- They bear the token of the client.
pub Opens-token : {c : Client} {r : Request} → Opens c r → r.token ≡ c.token
Opens-token (gets_user id) = refl
Opens-token _ = refl

-- The last lines of the logout page.
abbrev pub leave : Client → Client
leave c = record c {
  app = record (set_current_user none c.app) { user_id = none };
  user_logged = false;
}

-- What configHeader leaves alone.
abbrev pub SameUser : App → App → Type 0
SameUser a b = (a.user_id ≡ b.user_id) × (a.current_user ≡ b.current_user)

-- A property that each operation of a page keeps.
pub record Opening {ℓ} (P : Client → Type ℓ) : Type ℓ where
  pub goes : (p : Page) (c : Client) → P c → P (go p c)
  pub shows : (bar : App) (c : Client) → SameUser bar c.app → P c → P (record c { app = bar })
  pub injects : (k : Class) (c : Client) → P c → P (inject k c)
  pub guards : (c : Client) → P c → P (is_user_connected c)
  pub sends : (r : Request) (c : Client) → Opens c r → P c → P (send r c)
  pub leaves : (c : Client) → P c → P (leave c)
  pub enters : (p : Page) (c : Client) → P c → P (record c { page = p; pending = none })

module _ {ℓ} {P : Client → Type ℓ} (k : Opening P) where
  open k use {goes, shows, injects, guards, sends, leaves, enters}

  either : (b : Bool) {x y : Client} → P x → P y → P (if b then x else y)
  either true h g = h
  either false h g = g

  -- A page that is opened keeps it, whatever the page.
  pub open_page-Opening : (p : Page) (c : Client) → P c → P (open_page p c)
  unfolding open_page open_home open_search open_contact open_search_view_item Items.open_items
      Items.open_add Items.open_view Items.open_edit Items.open_sub open_messages open_compose
      open_contracts Form.open_add open_contract Form.open_edit open_subscribe open_login
      open_logout open_account open_settings open_password
  open_page-Opening Page.home c h =
      let bar : App =
        config_header (record empty_header { context_button = some (some "search") }) c.app in
      let kept = shows bar c (refl, refl) h in
      either (is_some c.app.current_user) kept (goes Page.login _ kept)
  open_page-Opening Page.search c h = shows _ c (refl, refl) h
  open_page-Opening Page.contact c h = shows _ _ (refl, refl) (guards _ (injects Class.item c h))
  open_page-Opening (Page.search_view_item id) c h =
      sends _ _ (gets_item id) (injects Class.item c h)
  open_page-Opening Page.my_items_view c h =
      sends _ _ (gets_item none) (shows _ _ (refl, refl) (guards _ (injects Class.item c h)))
  open_page-Opening Page.my_items_add c h =
      shows _ _ (refl, refl) (guards _ (injects Class.item c h))
  open_page-Opening (Page.my_items_view_one id) c h =
      sends _ _ (gets_item id) (shows _ _ (refl, refl) (guards _ (injects Class.item c h)))
  open_page-Opening (Page.my_items_edit id) c h =
      sends _ _ (gets_item id) (shows _ _ (refl, refl) (guards _ (injects Class.item c h)))
  open_page-Opening (Page.my_items_sub id) c h =
      sends _ _ (gets_item id) (shows _ _ (refl, refl) (guards _ (injects Class.item c h)))
  open_page-Opening Page.messages c h = sends _ _ gets_messages (
      sends _ _ (gets_user _)
        (shows _ _ (refl, refl) (guards _ (injects Class.user _ (injects Class.message c h)))))
  open_page-Opening Page.add_message c h =
      sends _ _ (gets_user _)
        (shows _ _ (refl, refl) (guards _ (injects Class.user _ (injects Class.message c h))))
  open_page-Opening Page.view_contracts c h =
      sends _ _ (gets_contract none) (shows _ _ (refl, refl) (injects Class.contract c h))
  open_page-Opening Page.add_contract c h =
      sends _ _ gets_users (shows _ _ (refl, refl) (injects Class.contract c h))
  open_page-Opening (Page.view_contract id) c h =
      sends _ _ (gets_contract id) (shows _ _ (refl, refl) (injects Class.contract c h))
  open_page-Opening (Page.edit_contract id) c h =
      sends _ _ (gets_contract id)
        (sends _ _ gets_users (shows _ _ (refl, refl) (injects Class.contract c h)))
  open_page-Opening Page.subscribe c h = shows _ c (refl, refl) h
  open_page-Opening Page.login c h = shows _ c (refl, refl) h
  open_page-Opening Page.logout c h =
      leaves _ (sends _ _ gets_logout (shows _ _ (refl, refl) (guards c h)))
  open_page-Opening Page.account c h =
      sends _ _ (gets_user _) (shows _ _ (refl, refl) (guards _ (injects Class.user c h)))
  open_page-Opening Page.settings c h =
      sends _ _ (gets_user _) (shows _ _ (refl, refl) (guards _ (injects Class.user c h)))
  open_page-Opening Page.password c h =
      sends _ _ (gets_user _) (shows _ _ (refl, refl) (injects Class.user c h))

  -- So does a transition that completes.
  pub enter-Opening : (c : Client) → P c → P (enter c)
  enter-Opening c h = enter-elim (λ _ d. P d) c h (λ p. open_page-Opening p _ (enters p c h))
