-- ===== src/Session/Moving.antt =====
-- What the handlers and callbacks of the pages in src/main/js/modules do to the client: an interface of
-- few operations, by which a property of the client is shown to survive every step but the ones of
-- a login and a subscription.
use gl_tomsxp.Messages.Compose.{Compose}
use gl_tomsxp.Messages.Inbox.{Inbox}
use gl_tomsxp.Common.{
  ◌⊎◌, ◌==◌, loose_eq, Bool-cases, Bool, true, false, if◌then◌else◌, Option, none, some, String,
  List, [], ◌∷◌, Outcome, done, threw, state, Option-cases, inl, inr, concat, truthy, ◌>>=◌, ◌≡◌,
  refl, ◌&&◌,
}
use gl_tomsxp.Client.{
  call_http, Client, Class, Request, Json, json, Verb, get, post, put, delete, http_request,
  class_request, oboe_request, send, go, Page,
}
use gl_tomsxp.Search.{search_view_item_loaded}
use gl_tomsxp.Items
use gl_tomsxp.Items.{item_body}
use gl_tomsxp.Settings.{Fields, change, Password, submit_password, password_reply, submit_contact}
use gl_tomsxp.Messages.Inbox
use gl_tomsxp.Messages.Compose
use gl_tomsxp.Contracts.Form
use gl_tomsxp.Contracts.Form.{Form, contract_body, parties_ids, issue, take_party, take_clause}
use gl_tomsxp.Contracts.View.{modify, sign, decline, contract_id}
use gl_tomsxp.Session.{Password, Step}
use gl_tomsxp.Session.Opening.{Opening, enter-Opening}

-- What is sent of a message, and of a change of the password.
abbrev pub message_body : Option String → Option String → Option String → List (String × Json)
message_body name id content =
    ("receiverName", json name) ∷ ("receiverId", json id) ∷ ("messageContent", json content) ∷ []

abbrev pub password_body : Fields → List (String × Json)
password_body f =
    ("password", json f.previous)
    ∷ ("passwordNew", json f.pass1)
    ∷ ("passwordConfirm", json f.pass2)
    ∷ []

-- The requests of a button, and of a key in the name of a receiver, as the client `c` sends them.
pub data Presses (c : Client) : Request → Type 0 where
  adds_item :
      (title description : Option String)
      → Presses c (class_request Class.item post none (item_body title description) c)
  edits_item :
      (id title description : Option String)
      → Presses c (class_request Class.item put id (item_body title description) c)
  deletes_item : (id : Option String) → Presses c (class_request Class.item delete id [] c)
  adds_contract :
      (s : Form) (ids : List (Option String))
      → Presses c (class_request Class.contract post s.contract_id (contract_body s ids) c)
  edits_contract :
      (s : Form) (ids : List (Option String))
      → Presses c (class_request Class.contract put s.contract_id (contract_body s ids) c)
  deletes_contract : (id : Option String) → Presses c (class_request Class.contract delete id [] c)
  signs :
      (id : Option String)
      → Presses c (http_request put "/api/contracts/sign/:id" (("", json id) ∷ []) c)
  declines :
      (id : Option String)
      → Presses c (http_request put "/api/contracts/cancel/:id" (("", json id) ∷ []) c)
  adds_message :
      (name id content : Option String)
      → Presses c (oboe_request post "/api/messages/" (message_body name id content) c.token c)
  finds_users :
      (name : String)
      → Presses c (oboe_request get (concat "/api/search/users?nick=" name) [] none c)
  changes_password :
      (f : Fields) → Presses c (http_request post "/api/users/password" (password_body f) c)

-- They bear the token of the client, or none.
pub Presses-token :
    {c : Client} {r : Request} → Presses c r → (r.token ≡ none) ⊎ (r.token ≡ c.token)
Presses-token (finds_users name) = inl refl
Presses-token (adds_item title description) = inr refl
Presses-token _ = inr refl

-- The steps but for those of a login and of a subscription.
abbrev pub IsPlain : {c d : Client} → Step c d → Type 0
IsPlain (Step.logs_in s) = ⊥
IsPlain (Step.login_answered a s) = ⊥
IsPlain (Step.subscribes s) = ⊥
IsPlain (Step.subscribe_answered a known) = ⊥
IsPlain _ = Unit

-- A property that each operation of a plain step keeps.
pub record Moving {ℓ} (P : Client → Type ℓ) : Type ℓ where
  pub opening : Opening P
  pub presses : (r : Request) (c : Client) → Presses c r → P c → P (send r c)

module _ {ℓ} {P : Client → Type ℓ} (k : Moving P) where
  open k use {opening, presses}
  open opening use {goes, shows}

  either : (b : Bool) {x y : Client} → P x → P y → P (if b then x else y)
  either true h g = h
  either false h g = g

  submits :
      (verb : Verb) (c : Client)
      → P c
      → ((s : Form) (ids : List (Option String))
          → P (send (class_request Class.contract verb s.contract_id (contract_body s ids) c) c))
      → (s : Form) → P (state (Form.submit verb (c, s))).0
  unfolding Form.submit
  submits verb c h g s = elim (Option-cases (parties_ids s.parties)) [
    | inl e ↦ rw (e, Form.submit) h
    | inr (ids, e) ↦ rw (e, Form.submit) (issued ids (take_party s >>= take_clause))
  ]
    where
      issued : (ids : List (Option String)) (o : Outcome Form) → P (state (issue verb ids c o)).0
      issued ids (threw t) = h
      issued ids (done t) = g t ids

  writes :
      (name : String) (id content : Option String) (c : Client) (s : Inbox)
      → P c
      → P (Inbox.add_message name id content (c, s)).0
  unfolding Inbox.add_message
  writes name id content c s h = elim (Bool-cases (truthy content)) [
    | inl e ↦ rw e (presses _ c (adds_message (some name) id content) h)
    | inr e ↦ rw e h
  ]

  composes : (c : Client) (s : Compose) → P c → P (Compose.submit (c, s)).0
  unfolding Compose.submit
  composes c s h =
      elim (Bool-cases (truthy s.content && (truthy s.receiver_name && truthy s.receiver_id))) [
        | inl e ↦ rw e (presses _ c (adds_message s.receiver_name s.receiver_id s.content) h)
        | inr e ↦ rw e h
      ]

  changes :
      (o : Option String) (f : Fields) (c : Client) (s : Password)
      → P c
      → P (state (change o f (c, s))).0
  unfolding change go call_http send
  changes none f c s h = h
  changes (some pass) f c s h = elim (Bool-cases (pass == "")) [
    | inl e ↦ rw e h
    | inr e ↦ rw e (goes Page.logout _ (presses _ c (changes_password f) h))
  ]

  submits_password : (c : Client) (s : Password) → P c → P (state (submit_password (c, s))).0
  unfolding submit_password
  submits_password c s h = elim (Option-cases s.form) [
    | inl e ↦ rw e h
    | inr (f, e) ↦ elim (Bool-cases (loose_eq f.pass1 f.pass2)) [
      | inl b ↦ rw (e, b) (changes f.pass1 f c s h)
      | inr b ↦ rw (e, b) h
    ]
  ]

  hears :
      (e : Option String) (c : Client) (s : Password)
      → P c
      → P (state (password_reply (some e) (c, s))).0
  unfolding password_reply go
  hears e c s h = elim (Bool-cases (truthy e)) [ inl t ↦ rw t h | inr t ↦ rw t (goes _ c h) ]

  pub Step-Moving : {c d : Client} (step : Step c d) → IsPlain step → P c → P d
  unfolding go search_view_item_loaded Items.submit_add Items.submit_edit Items.submit_sub
      Items.saved Form.submit_add Form.submit_edit Form.delete_edit Form.saved modify sign decline
      Inbox.add_answered Compose.send_answered Compose.user_auto_complete password_reply
      submit_contact
  Step-Moving {c} (Step.navigates p) q h = goes p c h
  Step-Moving {c} Step.enters q h = enter-Opening opening c h
  Step-Moving (Step.logs_in s) q h = absurd q
  Step-Moving (Step.login_answered a s) q h = absurd q
  Step-Moving (Step.subscribes s) q h = absurd q
  Step-Moving (Step.subscribe_answered a known) q h = absurd q
  Step-Moving {c} (Step.item_shown id i) q h = shows _ c (refl, refl) h
  Step-Moving (Step.item_added none) q h = h
  Step-Moving {c} (Step.item_added (some f)) q h = presses _ c (adds_item f.title f.description) h
  Step-Moving {c} (Step.item_edited s) q h = presses _ c (edits_item _ _ _) h
  Step-Moving {c} (Step.item_deleted i) q h = presses _ c (deletes_item i.id) h
  Step-Moving {c} Step.item_saved q h = goes _ c h
  Step-Moving {c} (Step.contract_added s) q h =
      submits post c h (λ t ids. presses _ c (adds_contract t ids) h) s
  Step-Moving {c} (Step.contract_edited s) q h =
      submits put c h (λ t ids. presses _ c (edits_contract t ids) h) s
  Step-Moving {c} (Step.contract_deleted s) q h = presses _ c (deletes_contract s.contract_id) h
  Step-Moving {c} Step.contract_saved q h = goes _ c h
  Step-Moving {c} (Step.contract_modified s) q h = goes _ c h
  Step-Moving {c} (Step.contract_signed s) q h = goes _ _ (presses _ c (signs (contract_id s)) h)
  Step-Moving {c} (Step.contract_declined s) q h =
      goes _ _ (presses _ c (declines (contract_id s)) h)
  Step-Moving {c} (Step.message_added name id content s) q h = writes name id content c s h
  Step-Moving (Step.message_answered none s) q h = h
  Step-Moving (Step.message_answered (some []) s) q h = h
  Step-Moving {c} (Step.message_answered (some (m ∷ ms)) s) q h = goes c.page c h
  Step-Moving {c} (Step.message_submitted s) q h = composes c s h
  Step-Moving (Step.message_sent none s) q h = h
  Step-Moving (Step.message_sent (some []) s) q h = h
  Step-Moving {c} (Step.message_sent (some (m ∷ ms)) s) q h = goes _ c h
  Step-Moving {c} (Step.receiver_typed s) q h = presses _ c (finds_users _) h
  Step-Moving {c} (Step.password_submitted s) q h = submits_password c s h
  Step-Moving (Step.password_answered none s) q h = h
  Step-Moving {c} (Step.password_answered (some e) s) q h = hears e c s h
  Step-Moving (Step.mail_submitted none) q h = h
  Step-Moving {c} (Step.mail_submitted (some m)) q h = goes _ c h
