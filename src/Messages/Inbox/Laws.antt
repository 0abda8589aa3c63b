-- ===== src/Messages/Inbox/Laws.antt =====
-- The conversations of the inbox against their specification.
use gl_tomsxp.Common.{
  shown, loose_eq, threw, ◌++◌, state, done, ◌≡◌, refl, String, Option, none, some, List, [], ◌∷◌,
  ◌==◌, eq_iff, arith, if◌then◌else◌, map, ◌≢◌, All,
}
use gl_tomsxp.Messages.Object.{Object, put}
use gl_tomsxp.Messages.Object.Laws.{lookup-entries, lookup, lookup-put}
use gl_tomsxp.Messages.Inbox.{
  entries, Inbox, refresh, Message, Chat, other_name, other_id, collect, chat,
}

-- With whom a message was exchanged, as name and id: a message that the user sent concerns its
-- receiver, any other its sender.
abbrev pub partner : Option String → Message → String × Option String
partner nick m =
    if loose_eq m.sender_name nick
    then (shown m.receiver_name, m.receiver_id)
    else (shown m.sender_name, m.sender_id)

-- The id of the other side in the last message exchanged under the name `key`.
abbrev pub last_id : Option String → String → List (Option Message) → Option (Option String)
last_id nick key [] = none
last_id nick key (none ∷ ms) = last_id nick key ms
last_id nick key (some m ∷ ms) = elim (last_id nick key ms) [
  | some id ↦ some id
  | none ↦ if (partner nick m).0 == key then some (partner nick m).1 else none
]

-- The id that the list of conversations has for a name.
abbrev pub chat_id : String → List Chat → Option (Option String)
chat_id key [] = none
chat_id key (c ∷ cs) = if c.name == key then some c.id else chat_id key cs

chat_id-map : (key : String) (o : Object) → chat_id key (map chat o) ≡ lookup key o
chat_id-map key [] = refl
chat_id-map key ((k, v) ∷ o) = ground (arith, chat_id-map key o)

abbrev pub HasNoNull : List (Option Message) → Type 0
HasNoNull ms = All (λ m. m ≢ none) ms

collect_total :
    (nick : Option String) (ms : List (Option Message)) (tmp : Object)
    → HasNoNull ms
    → (o : Object) × (collect nick ms tmp ≡ some o)
      × ((key : String)
          → lookup key o ≡ (
              if key == "__proto__"
              then lookup key tmp
              else elim (last_id nick key ms) [ some id ↦ some id | none ↦ lookup key tmp ]))
unfolding collect
collect_total nick [] tmp h = (tmp, refl, λ key. ground arith)
collect_total nick (none ∷ ms) tmp (h, rest) = absurd (h refl)
collect_total nick (some m ∷ ms) tmp (h, rest) =
    let name = other_name nick m in
    let (o, e, found) = collect_total nick ms (put name (other_id nick m) tmp) rest in
    (
      o,
      e,
      λ key. ground (
        arith,
        found key,
        lookup-put name key (other_id nick m) tmp,
        eq_iff name key,
        eq_iff name "__proto__",
        eq_iff key "__proto__",
      ),
    )

-- If no message is null, `refresh` does not throw, and the list of conversations has a name exactly
-- if some message was exchanged under it, with the id of the last such message; only the name
-- "__proto__" is never listed.
pub refresh-chat_id :
    (s : Inbox) (key : String)
    → HasNoNull s.messages
    → (refresh s ≡ done (state (refresh s)))
      × (chat_id key (state (refresh s)).chats
          ≡ (if key == "__proto__" then none else last_id s.nick key s.messages))
unfolding refresh
refresh-chat_id s key h =
    let (o, e, found) = collect_total s.nick s.messages [] h in
    rw (e, refresh)
      (refl, ground (arith, chat_id-map key (entries o), lookup-entries key o, found key))

collect_null :
    (nick : Option String) (ms more : List (Option Message)) (tmp : Object)
    → collect nick (ms ++ none ∷ more) tmp ≡ none
unfolding collect
collect_null nick [] more tmp = refl
collect_null nick (none ∷ ms) more tmp = refl
collect_null nick (some m ∷ ms) more tmp = collect_null nick ms more _

-- A null among the messages empties the list of conversations: `refresh` throws behind the reset.
pub refresh-null :
    (s : Inbox) (ms more : List (Option Message))
    → s.messages ≡ ms ++ none ∷ more
    → refresh s ≡ threw (record s { chats = [] })
unfolding refresh
refresh-null s ms more e = rw e (rw (collect_null s.nick ms more [], refresh))
