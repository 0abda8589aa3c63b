-- ===== src/Messages/Compose/Laws.antt =====
-- Whom a message of the page 'addMessage' goes to (src/main/js/modules/messages.js).
use gl_tomsxp.Common.{
  state, ◌≡◌, refl, ◌∙◌, ℕ, ◌+◌, String, Option, none, some, Bool, true, false, List, [], ◌∷◌, ◌==◌,
  arith, if◌then◌else◌, truthy, ◌&&◌, not,
}
use gl_tomsxp.Client.{Client, Request, Verb, post, json, Channel, call_oboe}
use gl_tomsxp.Messages.Compose.{
  send_started, Found, Compose, submit, user_auto_complete, search_started, search_done,
  search_received, select_user,
}

-- The text, the name and the id of the receiver are all there.
abbrev pub is_complete : Compose → Bool
is_complete s = truthy s.content && (truthy s.receiver_name && truthy s.receiver_id)

-- What `submit` posts.
abbrev pub letter : Client → Compose → Request
letter c s = record {
  channel = Channel.oboe;
  verb = post;
  server = c.server;
  route = "/api/messages/";
  id = none;
  body =
      ("receiverName", json s.receiver_name)
      ∷ ("receiverId", json s.receiver_id)
      ∷ ("messageContent", json s.content)
      ∷ [];
  token = c.token;
}

-- `submit` posts one message if all three parts are there; otherwise it sends nothing and shows
-- "Fields required", which a message that is sent takes away.
pub submit-is_complete :
    (c : Client) (s : Compose)
    → ((submit (c, s)).0.sent ≡ (if is_complete s then letter c s ∷ c.sent else c.sent))
      × ((submit (c, s)).1.error_fields ≡ not (is_complete s))
      × ((submit (c, s)).1.send_message ≡ (if is_complete s then true else s.send_message))
unfolding submit call_oboe
submit-is_complete c s = ground arith

-- What may happen on the page, but for a click on a user.
pub data Act : Type 0 where
  types_name : Option String → Act
  starts : ℕ → Act
  receives : Option (List (Option Found)) → Act
  finishes submits : Act
  writes : Option String → Act

abbrev pub act : Act → Client × Compose → Client × Compose
act (types_name name) (c, s) = user_auto_complete (c, record s { receiver_name = name })
act (starts n) (c, s) = (c, search_started n s)
act (receives node) (c, s) = (c, search_received node s)
act finishes (c, s) = (c, search_done s)
act submits (c, s) = submit (c, s)
act (writes content) (c, s) = (c, record s { content = content })

abbrev pub act_all : List Act → Client × Compose → Client × Compose
act_all [] p = p
act_all (a ∷ acts) p = act_all acts (act a p)

abbrev is_post : Verb → Bool
is_post post = true
is_post _ = false

-- How many of the requests are posts.
abbrev pub posts : List Request → ℕ
posts [] = 0
posts (r ∷ rs) = (if is_post r.verb then 1 else 0) + posts rs

act-posts :
    (a : Act) (c : Client) (s : Compose)
    → s.receiver_id ≡ none
    → (posts (act a (c, s)).0.sent ≡ posts c.sent) × ((act a (c, s)).1.receiver_id ≡ none)
unfolding user_auto_complete search_started search_received search_done submit call_oboe
act-posts (types_name name) c s h = ground arith
act-posts (starts n) c s h = ground arith
act-posts (receives none) c s h = ground arith
act-posts (receives (some node)) c s h = ground arith
act-posts finishes c s h = ground arith
act-posts submits c s h = ground arith
act-posts (writes content) c s h = ground arith

-- While no receiver is chosen, which each key in the name field brings about, no message is posted,
-- whatever is typed, received and submitted before the next click on a user.
pub act_all-posts :
    (acts : List Act) (c : Client) (s : Compose)
    → s.receiver_id ≡ none
    → posts (act_all acts (c, s)).0.sent ≡ posts c.sent
act_all-posts [] c s h = refl
act_all-posts (a ∷ acts) c s h =
    let (same, still) = act-posts a c s h in act_all-posts acts _ _ still ∙ same

-- A key in the name field forgets the receiver that was chosen.
pub user_auto_complete-receiver :
    (c : Client) (s : Compose) → (user_auto_complete (c, s)).1.receiver_id ≡ none
unfolding user_auto_complete
user_auto_complete-receiver c s = ground arith

-- A message to a user that was clicked bears his id, and as the name what was typed to find him, if
-- the id, the name and the text are there and not empty; also if the click throws because the user
-- has no key.
pub submit-select_user :
    (c : Client) (s : Compose) (u : Found) (id name text : String)
    → u.id ≡ some id
    → s.receiver_name ≡ some name
    → s.content ≡ some text
    → (id == "") ≡ false
    → (name == "") ≡ false
    → (text == "") ≡ false
    → (submit (c, state (select_user u s))).0.sent
      ≡ record (letter c s) {
        body =
            ("receiverName", json (some name))
            ∷ ("receiverId", json (some id))
            ∷ ("messageContent", json (some text))
            ∷ [];
      }
        ∷ c.sent
unfolding submit select_user call_oboe
submit-select_user c s u id name text e e' e'' h h' h'' = ground arith

-- The stream of a message starts, and then the name of the receiver changes by a key.
abbrev pub types_while_sending : ℕ → Option String → Client × Compose → Client × Compose
types_while_sending n name p =
    user_auto_complete (p.0, record (send_started n p.1) { receiver_name = name })

-- If the name of the receiver is typed in once the stream of a message that was posted has started,
-- that stream is aborted, since it shares its handle with the search for users, and the flag of the
-- loader stays set.
pub typing_aborts_message :
    (c : Client) (s : Compose) (name : Option String) (n : ℕ)
    → is_complete s ≡ true
    → let p = submit (c, s) in
      let q = types_while_sending n name p in
      (p.0.sent ≡ letter c s ∷ c.sent) × (q.1.aborted ≡ n ∷ s.aborted) × (q.1.send_message ≡ true)
unfolding submit send_started user_auto_complete call_oboe
typing_aborts_message c s name n h = ground arith
