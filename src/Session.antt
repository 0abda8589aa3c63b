-- ===== src/Session.antt =====
-- The pages together: which controller each state of the router runs, and the steps by which the
-- client as a whole moves (src/main/js/modules).
pub mod Laws
pub mod Home
pub mod PasswordChange
pub mod Liveness
pub mod Refinement
pub mod Races
pub mod Enter
pub mod Opening
pub mod Moving
pub mod Served
pub mod Signing
mod Requests
pub mod Guard
pub mod EditLink
pub mod Routes
pub mod Servers
pub mod Tokens
pub mod Writes
mod Tests
use gl_tomsxp.Common.{
  String, Option, none, some, Bool, List, is_some, if◌then◌else◌, Outcome, state, ◌≢◌, loose_eq,
  true, false,
}
use gl_tomsxp.Client.{
  Client, Page, home, search, contact, search_view_item, my_items_view, my_items_add,
  my_items_view_one, my_items_edit, my_items_sub, messages, add_message, view_contracts,
  add_contract, view_contract, edit_contract, subscribe, login, logout, account, settings, password,
  header, empty_header, go, get_current_user,
}
use gl_tomsxp.Users.{
  Answer, Login, Subscribe, open_login, submit_login, login_reply, open_subscribe, submit_subscribe,
  subscribe_reply, open_account, open_logout,
}
use gl_tomsxp.Search.{open_search, open_search_view_item, search_view_item_loaded}
use gl_tomsxp.Search
use gl_tomsxp.Items
use gl_tomsxp.Settings.{
  open_settings, open_password, Password, submit_password, password_reply, open_contact,
  submit_contact, Mail,
}
use gl_tomsxp.Messages.Inbox.{Inbox, open_messages}
use gl_tomsxp.Messages.Inbox
use gl_tomsxp.Messages.Compose.{Compose, open_compose, Found}
use gl_tomsxp.Messages.Compose
use gl_tomsxp.Contracts.Form.{Form, Contract}
use gl_tomsxp.Contracts.Form
use gl_tomsxp.Contracts.View.{View, open_contracts, open_contract, modify, sign, decline}

-- The controller of the state 'home' (src/main/js/modules/app.js).
unfoldable pub open_home : Client → Client
unfolding header go
open_home c =
    let c' : Client = header (record empty_header { context_button = some (some "search") }) c in
    if is_some (get_current_user c'.app) then c' else go login c'

-- The part of each controller that concerns the client as a whole.
unfoldable pub open_page : Page → Client → Client
open_page home c = open_home c
open_page search c = (open_search c).0
open_page contact c = open_contact c
open_page (search_view_item id) c = open_search_view_item id c
open_page my_items_view c = Items.open_items c
open_page my_items_add c = Items.open_add c
open_page (my_items_view_one id) c = Items.open_view id c
open_page (my_items_edit id) c = (Items.open_edit id c).0
open_page (my_items_sub id) c = (Items.open_sub id c).0
open_page messages c = (open_messages c).0
open_page add_message c = (open_compose c).0
open_page view_contracts c = open_contracts c
open_page add_contract c = (Form.open_add c).0
open_page (view_contract id) c = (open_contract id c).0
open_page (edit_contract id) c = (Form.open_edit id c).0
open_page subscribe c = (open_subscribe c).0
open_page login c = (open_login c).0
open_page logout c = open_logout c
open_page account c = open_account c
open_page settings c = open_settings c
open_page password c = open_password c

-- The transition that is pending completes.
unfoldable pub enter : Client → Client
unfolding open_page
enter c = elim c.pending [ none ↦ c | some p ↦ open_page p (record c { page = p; pending = none }) ]

-- The steps of the client: links, transitions, and every handler and callback of a page that touches
-- what the pages share. A page is given with any scope, since its callbacks outlive it. The server
-- answers a subscription with a user id (src/main/java/controller/Users.java).
pub data Step (c : Client) : Client → Type 0 where
  navigates : (p : Page) → Step c (go p c)
  enters : Step c (enter c)
  logs_in : (s : Login) → Step c (submit_login (c, s)).0
  login_answered : (a : Option Answer) (s : Login) → Step c (state (login_reply a (c, s))).0
  subscribes : (s : Subscribe) → Step c (submit_subscribe (c, s)).0
  subscribe_answered : (a : Answer) → a.userid ≢ none → Step c (state (subscribe_reply (some a) c))
  item_shown : (id : Option String) (i : Search.Item) → Step c (search_view_item_loaded id i c)
  item_added : (f : Option Items.Fields) → Step c (state (Items.submit_add f c))
  item_edited : (s : Items.Edit) → Step c (Items.submit_edit (c, s)).0
  item_deleted : (i : Items.Item) → Step c (Items.submit_sub (c, i))
  item_saved : Step c (Items.saved c)
  contract_added : (s : Form) → Step c (state (Form.submit_add (c, s))).0
  contract_edited : (s : Form) → Step c (state (Form.submit_edit (c, s))).0
  contract_deleted : (s : Form) → Step c (Form.delete_edit (c, s)).0
  contract_saved : Step c (Form.saved c)
  contract_modified : (s : View) → Step c (modify (c, s))
  contract_signed : (s : View) → Step c (sign (c, s))
  contract_declined : (s : View) → Step c (decline (c, s))
  message_added :
      (name : String) (id content : Option String) (s : Inbox)
      → Step c (Inbox.add_message name id content (c, s)).0
  message_answered :
      (node : Option (List (Option Inbox.Message))) (s : Inbox)
      → Step c (Inbox.add_answered node (c, s)).0
  message_submitted : (s : Compose) → Step c (Compose.submit (c, s)).0
  message_sent :
      (node : Option (List (Option Found))) (s : Compose)
      → Step c (Compose.send_answered node (c, s)).0
  receiver_typed : (s : Compose) → Step c (Compose.user_auto_complete (c, s)).0
  password_submitted : (s : Password) → Step c (state (submit_password (c, s))).0
  password_answered :
      (a : Option (Option String)) (s : Password) → Step c (state (password_reply a (c, s))).0
  mail_submitted : (m : Option Mail) → Step c (state (submit_contact m c))

pub data Reach (c : Client) : Client → Type 0 where
  here : Reach c c
  next : {d e : Client} → Reach c d → Step d e → Reach c e

-- The runs all of whose steps are allowed.
pub data Along (IsAllowed : (c d : Client) → Step c d → Type 0) (c : Client) : Client → Type 0 where
  here : Along IsAllowed c c
  next :
      {d e : Client}
      → Along IsAllowed c d
      → (step : Step d e) → IsAllowed d e step
      → Along IsAllowed c e
