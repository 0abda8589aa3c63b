-- ===== src/Messages/Inbox/Order.antt =====
-- The order of the list of conversations (`refresh` of src/main/js/modules/messages.js).
use gl_tomsxp.Common.{
  ◌≡◌, refl, ap, sym, subst, String, Option, none, some, List, [], ◌∷◌, map, state, ◌++◌,
  Option-cases, inl, inr, arith,
}
use gl_tomsxp.Client.{Client}
use gl_tomsxp.Messages.Object.{Object, put, entries}
use gl_tomsxp.Messages.Object.Order.{
  NoRepeat, Ordered, put-NoRepeat, entries-NoRepeat, entries-Ordered,
}
use gl_tomsxp.Messages.Inbox.{
  Inbox, Message, Chat, chat, collect, refresh, node_received, other_name, other_id, open_messages,
  user_loaded, load_started, load_done, add_started, add_done, add_failed,
}
use gl_tomsxp.Messages.Inbox.Runs.{
  Act, act, act_all, user_arrives, stream_starts, stream_ends, node_arrives, presses_send,
  send_starts, send_ends, send_fails, send_answered, add_message_keeps, add_answered_keeps,
}

-- The conversations as entries of an object.
abbrev pub names : List Chat → Object
names [] = []
names (c ∷ cs) = (c.name, c.id) ∷ names cs

names-chat : (o : Object) → names (map chat o) ≡ o
names-chat [] = refl
names-chat ((k, v) ∷ o) = ap ((k, v) ∷◌) (names-chat o)

-- No name stands twice, and each may stand before those that follow.
pub record IsNeat (cs : List Chat) : Type 0 where
  pub distinct : NoRepeat (names cs)
  pub ordered : Ordered (names cs)

collect-NoRepeat :
    (nick : Option String) (ms : List (Option Message)) (tmp o : Object)
    → NoRepeat tmp
    → collect nick ms tmp ≡ some o
    → NoRepeat o
unfolding collect
collect-NoRepeat nick [] tmp o h e = subst NoRepeat (ground (arith, e)) h
collect-NoRepeat nick (none ∷ ms) tmp o h e = absurd (ground (arith, e))
collect-NoRepeat nick (some m ∷ ms) tmp o h e =
    collect-NoRepeat nick ms (put (other_name nick m) (other_id nick m) tmp) o
      (put-NoRepeat (other_name nick m) (other_id nick m) tmp h) e

refresh-IsNeat : (s : Inbox) → IsNeat (state (refresh s)).chats
unfolding refresh
refresh-IsNeat s = elim (Option-cases (collect s.nick s.messages [])) [
  | inl e ↦ rw (e, refresh) (record { distinct = tt; ordered = tt })
  | inr (o, e) ↦
      rw (e, refresh)
        (record {
          distinct =
              rw (names-chat (entries o))
                (entries-NoRepeat o (collect-NoRepeat s.nick s.messages [] o tt e));
          ordered = rw (names-chat (entries o)) (entries-Ordered o);
        })
]

node_received-IsNeat :
    (node : Option (List (Option Message))) (s : Inbox)
    → IsNeat (state (node_received node s)).chats
unfolding node_received
node_received-IsNeat none s = refresh-IsNeat s
node_received-IsNeat (some node) s = refresh-IsNeat (record s { messages = s.messages ++ node })

act-IsNeat : (a : Act) (c : Client) (s : Inbox) → IsNeat s.chats → IsNeat (act a (c, s)).1.chats
unfolding user_loaded load_started load_done add_started add_done add_failed
act-IsNeat (node_arrives node) c s h = node_received-IsNeat node s
act-IsNeat (presses_send name id content) c s h =
    subst IsNeat (sym (add_message_keeps name id content (c, s)).1) h
act-IsNeat (send_answered node) c s h = subst IsNeat (sym (add_answered_keeps node (c, s)).1) h
act-IsNeat (user_arrives nick) c s h = h
act-IsNeat (stream_starts n) c s h = h
act-IsNeat stream_ends c s h = h
act-IsNeat (send_starts n) c s h = h
act-IsNeat send_ends c s h = h
act-IsNeat send_fails c s h = h

run-IsNeat :
    (acts : List Act) (c : Client) (s : Inbox)
    → IsNeat s.chats
    → IsNeat (act_all acts (c, s)).1.chats
run-IsNeat [] c s h = h
run-IsNeat (a ∷ acts) c s h = run-IsNeat acts (act a (c, s)).0 (act a (c, s)).1 (act-IsNeat a c s h)

-- In every run of the page, messages that are null included, no name is listed twice among the
-- conversations, and the names that are numerals of array indices stand first, in ascending order.
pub act_all-IsNeat :
    (acts : List Act) (c : Client) → IsNeat (act_all acts (open_messages c)).1.chats
unfolding open_messages
act_all-IsNeat acts c = run-IsNeat acts _ _ (record { distinct = tt; ordered = tt })
