-- ===== src/Messages/Inbox/Runs.antt =====
-- The page 'messages' from its opening on (src/main/js/modules/messages.js): what the list of
-- conversations holds after the user, the nodes of the stream and the answers came in some order.
use gl_tomsxp.Common.{
  ◌==◌, ℕ, ◌≡◌, refl, String, Option, none, some, List, [], ◌∷◌, ◌++◌, if◌then◌else◌, state, arith,
}
use gl_tomsxp.Client.{Client}
use gl_tomsxp.Messages.Inbox.{
  Inbox, Message, user_loaded, load_started, load_done, node_received, add_message, add_started,
  add_done, add_failed, add_answered,
}
use gl_tomsxp.Messages.Inbox.Laws.{last_id, chat_id}

-- What can happen to the page once it is open.
pub data Act : Type 0 where
  user_arrives : Option String → Act
  stream_starts : ℕ → Act
  stream_ends : Act
  node_arrives : Option (List (Option Message)) → Act
  presses_send : String → Option String → Option String → Act
  send_starts : ℕ → Act
  send_ends send_fails : Act
  send_answered : Option (List (Option Message)) → Act

abbrev pub act : Act → Client × Inbox → Client × Inbox
act (user_arrives nick) (c, s) = (c, user_loaded nick s)
act (stream_starts n) (c, s) = (c, load_started n s)
act stream_ends (c, s) = (c, load_done s)
act (node_arrives node) (c, s) = (c, state (node_received node s))
act (presses_send name id content) p = add_message name id content p
act (send_starts n) (c, s) = (c, add_started n s)
act send_ends (c, s) = (c, add_done s)
act send_fails (c, s) = (c, add_failed s)
act (send_answered node) p = add_answered node p

abbrev pub act_all : List Act → Client × Inbox → Client × Inbox
act_all [] p = p
act_all (a ∷ acts) p = act_all acts (act a p)

-- The messages of a node; null has none.
abbrev pub content_of : Option (List (Option Message)) → List (Option Message)
content_of none = []
content_of (some node) = node

-- All messages that the stream brought.
abbrev pub received : List Act → List (Option Message)
received [] = []
received (node_arrives node ∷ acts) = content_of node ++ received acts
received (_ ∷ acts) = received acts

-- The nick that was known when the last node came: `now` is the present one, `last` that of the
-- last node before.
abbrev pub nick_at_node : Option String → Option String → List Act → Option String
nick_at_node now last [] = last
nick_at_node now last (user_arrives nick ∷ acts) = nick_at_node nick last acts
nick_at_node now last (node_arrives _ ∷ acts) = nick_at_node now now acts
nick_at_node now last (_ ∷ acts) = nick_at_node now last acts

-- What the list of conversations should say of a name.
abbrev pub expected : Option String → String → List (Option Message) → Option (Option String)
expected nick key ms = if key == "__proto__" then none else last_id nick key ms

-- The list agrees with the messages, as seen by `nick`.
abbrev Agrees : Option String → Inbox → Type 0
Agrees nick s = (key : String) → chat_id key s.chats ≡ expected nick key s.messages

-- What the other acts leave alone.
abbrev pub Same : Inbox → Inbox → Type 0
Same s t = (t.messages ≡ s.messages) × (t.chats ≡ s.chats) × (t.nick ≡ s.nick)

pub add_message_keeps :
    (name : String) (id content : Option String) (p : Client × Inbox)
    → Same p.1 (add_message name id content p).1
unfolding add_message
add_message_keeps name id content (c, s) = ground arith

pub add_answered_keeps :
    (answer : Option (List (Option Message))) (p : Client × Inbox)
    → Same p.1 (add_answered answer p).1
unfolding add_answered
add_answered_keeps none (c, s) = (refl, refl, refl)
add_answered_keeps (some []) (c, s) = (refl, refl, refl)
add_answered_keeps (some (m ∷ ms)) (c, s) = (refl, refl, refl)

-- The list agrees with the messages as seen at the last node, after a run from `p`.
abbrev Ends : List Act → Client × Inbox → Option String → Type 0
Ends acts p last =
    (key : String)
    → chat_id key (act_all acts p).1.chats
      ≡ expected (nick_at_node p.1.nick last acts) key (p.1.messages ++ received acts)
