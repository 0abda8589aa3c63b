-- ===== src/Session/Refinement.antt =====
-- The session as a user and a security review see it, which each step of the client implements
-- (src/main/js/modules/users.js, and every other page by leaving it alone).
use gl_tomsxp.Common.{
  List, [], ◌∷◌, ◌++◌, ap, sym, ◌∙◌, if◌then◌else◌, truthy, refl, Option, String, some, ◌≡◌, none,
  arith,
}
use gl_tomsxp.Client.{has_login_field, Client, Page, go}
use gl_tomsxp.Users.{
  Answer, subscribe_reply, login_reply, open_login, submit_login, open_subscribe, submit_subscribe,
  open_account, open_logout,
}
use gl_tomsxp.Search.{open_search, open_search_view_item, search_view_item_loaded}
use gl_tomsxp.Items
use gl_tomsxp.Settings.{
  open_settings, open_password, submit_password, password_reply, open_contact, submit_contact,
}
use gl_tomsxp.Messages.Inbox.{open_messages}
use gl_tomsxp.Messages.Inbox
use gl_tomsxp.Messages.Compose.{open_compose}
use gl_tomsxp.Messages.Compose
use gl_tomsxp.Contracts.Form
use gl_tomsxp.Contracts.View.{open_contracts, open_contract, modify, sign, decline}
use gl_tomsxp.Session.Enter.{enter-elim}
use gl_tomsxp.Session.{Reach, subscribe_reply, login_reply, open_home, open_page, Step}

-- Who is logged in, by which token, and at which server.
pub record Account : Type 0 where
  pub user : Option String
  pub token : Option String
  pub server : String

abbrev pub account_of : Client → Account
account_of c = record { user = c.app.user_id; token = c.token; server = c.server }

-- What the session notices of a step: nothing, a form that names a server, an answer that brings a
-- user and a token, or the logout page.
pub data Label : Type 0 where
  silent : Label
  turns_to : String → Label
  answers : Answer → Label
  leaves : Label

-- What the session makes of it.
abbrev pub effect : Label → Account → Account
effect silent a = a
effect (turns_to server) a = record a { server = server }
effect (answers answer) a = record a { user = answer.userid; token = answer.token }
effect leaves a = record a { user = none }

abbrev pub effect_all : List Label → Account → Account
effect_all [] a = a
effect_all (l ∷ ls) a = effect_all ls (effect l a)

abbrev pub page_label : Option Page → Label
page_label (some Page.logout) = leaves
page_label _ = silent

-- The label of a step. An answer with an error is none, and so is an answer to a subscription once
-- its page was left: the name `login` is then undefined, and the callback throws.
abbrev pub label : {c d : Client} → Step c d → Label
label {c} Step.enters = page_label c.pending
label (Step.logs_in s) = turns_to s.form_server
label (Step.subscribes s) = turns_to s.form_server
label (Step.login_answered none s) = silent
label (Step.login_answered (some a) s) = if truthy a.error then silent else answers a
label {c} (Step.subscribe_answered a known) = if has_login_field c.page then answers a else silent
label _ = silent

-- The labels of a run, the first step first.
abbrev pub labels : {c d : Client} → Reach c d → List Label
labels Reach.here = []
labels (Reach.next r step) = labels r ++ label step ∷ []

open_page-effect :
    (p : Page) (c : Client)
    → account_of (open_page p c) ≡ effect (page_label (some p)) (account_of c)
unfolding open_page open_home open_search open_contact open_search_view_item Items.open_items
    Items.open_add Items.open_view Items.open_edit Items.open_sub open_messages open_compose
    open_contracts Form.open_add open_contract Form.open_edit open_subscribe open_login open_logout
    open_account open_settings open_password
open_page-effect Page.logout c = ground arith
open_page-effect _ c = ground arith

pub Step-effect :
    {c d : Client} (step : Step c d) → account_of d ≡ effect (label step) (account_of c)
unfolding submit_login login_reply submit_subscribe subscribe_reply search_view_item_loaded
    Items.submit_add Items.submit_edit Items.submit_sub Items.saved Form.submit_add Form.submit_edit
    Form.delete_edit Form.saved modify sign decline Inbox.add_message Inbox.add_answered
    Compose.submit Compose.send_answered Compose.user_auto_complete submit_password password_reply
    submit_contact go
Step-effect {c} Step.enters =
    enter-elim (λ o d. account_of d ≡ effect (page_label o) (account_of c)) c refl
      (λ p. open_page-effect p (record c { page = p; pending = none }))
Step-effect (Step.logs_in s) = refl
Step-effect (Step.subscribes s) = refl
Step-effect (Step.login_answered none s) = refl
Step-effect (Step.login_answered (some a) s) = ground arith
Step-effect (Step.subscribe_answered a known) = ground arith
Step-effect _ = ground arith

effect_all-append :
    (ls : List Label) (l : Label) (a : Account)
    → effect_all (ls ++ l ∷ []) a ≡ effect l (effect_all ls a)
effect_all-append [] l a = refl
effect_all-append (k ∷ ls) l a = effect_all-append ls l (effect k a)

-- Every run of the client is a run of the session: in any order of links, clicks and answers, the
-- user, the token and the server are what its labels make of them. A form turns to its server when
-- it is sent, an answer brings user and token together, only the logout page forgets the user, and
-- nothing else touches the three.
pub Reach-effect :
    {c d : Client} (r : Reach c d) → account_of d ≡ effect_all (labels r) (account_of c)
Reach-effect Reach.here = refl
Reach-effect {c} (Reach.next r step) =
    Step-effect step
    ∙ ap (effect (label step)) (Reach-effect r)
    ∙ sym (effect_all-append (labels r) (label step) (account_of c))
