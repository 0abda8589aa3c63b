-- ===== src/Messages/Inbox.antt =====
-- The page 'messages' of src/main/js/modules/messages.js: the stream of messages and the list of
-- conversations that `refresh` makes of them.
pub mod Laws
pub mod Runs
pub mod Order
use gl_tomsxp.Common.{
  ℕ, String, Option, none, some, Bool, true, false, List, [], ◌∷◌, ◌++◌, loose_eq, truthy, shown,
  map, if◌then◌else◌, Outcome, done, threw,
}
use gl_tomsxp.Client.{
  Client, Json, json, get, post, Class, user, message, empty_header, header, inject,
  is_user_connected, call_class, call_oboe, reload,
}
use gl_tomsxp.Messages.Object.{Object, put, entries}

pub record Message : Type 0 where
  pub sender_name : Option String
  pub sender_id : Option String
  pub receiver_name : Option String
  pub receiver_id : Option String
  pub content : Option String

pub record Chat : Type 0 where
  pub name : String
  pub id : Option String

-- `$scope.status`
pub data Status : Type 0 where
  unset started finished : Status

-- The scope; `nick` is undefined until the user that the page asks for has arrived. An element of
-- `messages` is `none` where the server sent null.
pub record Inbox : Type 0 where
  pub nick : Option String
  pub messages : List (Option Message)
  pub chats : List Chat
  pub stream : Option ℕ
  pub status : Status
  pub search_messages : Bool

-- The name and the id of the other side of a message.
abbrev pub other_name : Option String → Message → String
other_name nick m = shown (if loose_eq m.sender_name nick then m.receiver_name else m.sender_name)

abbrev pub other_id : Option String → Message → Option String
other_id nick m = if loose_eq m.sender_name nick then m.receiver_id else m.sender_id

-- The loop of `refresh` that fills `tmp`; it throws at a message that is null.
collect : Option String → List (Option Message) → Object → Option Object
unfolding put
collect nick [] tmp = some tmp
collect nick (none ∷ ms) tmp = none
collect nick (some m ∷ ms) tmp = collect nick ms (put (other_name nick m) (other_id nick m) tmp)

abbrev pub chat : String × Option String → Chat
chat (name, id) = record { name = name; id = id }

-- `refresh`
unfoldable pub refresh : Inbox → Outcome Inbox
unfolding collect entries
refresh s = elim (collect s.nick s.messages []) [
  | none ↦ threw (record s { chats = [] })
  | some tmp ↦ done (record s { chats = map chat (entries tmp) })
]

-- The body of the controller, with `loadMessages`, which launches the stream.
unfoldable pub open_messages : Client → Client × Inbox
unfolding header inject is_user_connected call_class call_oboe
open_messages c =
    let c' : Client =
      header
        (record empty_header { context_button = some (some "addMessage"); title = some "Messages" })
        (is_user_connected (inject user (inject message c))) in
    (
      call_oboe get "/api/messages/" [] c'.token (call_class user get c'.app.user_id [] c'),
      record {
        nick = none;
        messages = [];
        chats = [];
        stream = none;
        status = unset;
        search_messages = true;
      },
    )

-- The user arrives.
unfoldable pub user_loaded : Option String → Inbox → Inbox
user_loaded nick s = record s { nick = nick }

-- The callbacks of the stream of messages.
unfoldable pub load_started : ℕ → Inbox → Inbox
load_started n s = record s { stream = some n; status = started; search_messages = true }

unfoldable pub load_done : Inbox → Inbox
load_done s = record s { status = finished; search_messages = false }

-- A node arrives; `none` is the node null. The list is refreshed after an empty node too.
unfoldable pub node_received : Option (List (Option Message)) → Inbox → Outcome Inbox
unfolding refresh
node_received none s = refresh s
node_received (some node) s = refresh (record s { messages = s.messages ++ node })

-- `$scope.addMessage`: nothing is sent if the text is missing or empty.
unfoldable pub add_message :
    String → Option String → Option String → Client × Inbox → Client × Inbox
unfolding call_oboe
add_message chat_name chat_id content (c, s) =
    if truthy content
    then (
      call_oboe post "/api/messages/"
          (("receiverName", json (some chat_name))
            ∷ ("receiverId", json chat_id)
            ∷ ("messageContent", json content)
            ∷ [])
          c.token c,
      record s { search_messages = true },
    )
    else (c, s)

-- The callbacks of that request. A node that is an object has no length, so it counts as one that is
-- not empty.
unfoldable pub add_started : ℕ → Inbox → Inbox
add_started n s = record s { stream = some n; status = started }

unfoldable pub add_done : Inbox → Inbox
add_done s = record s { status = finished }

unfoldable pub add_failed : Inbox → Inbox
add_failed s = record s { search_messages = false }

unfoldable pub add_answered : Option (List (Option Message)) → Client × Inbox → Client × Inbox
unfolding reload
add_answered none (c, s) = (c, s)
add_answered (some []) (c, s) = (c, s)
add_answered (some (m ∷ ms)) (c, s) = (reload c, record s { search_messages = false })
