-- ===== src/Messages/Tabs/Laws.antt =====
-- What clicks on conversations do to the marks (src/main/js/modules/messages.js).
use gl_tomsxp.Common.{
  eq_iff, ◌≡◌, refl, String, Option, none, some, true, false, List, [], ◌∷◌, arith, state, threw,
}
use gl_tomsxp.Messages.Inbox.{Chat}
use gl_tomsxp.Messages.Tabs.{Marks, is_in, without, open_chat}

is_in-without :
    (id : String) (xs ids : List String) → is_in xs id ≡ true → is_in (without xs ids) id ≡ false
unfolding without
is_in-without id xs [] h = refl
is_in-without id xs (j ∷ ids) h = ground (arith, is_in-without id xs ids h, eq_iff id j)

module _ (select : String → Option (List String)) where
  -- One click after the other; an exception ends only its click.
  abbrev pub open_all : List Chat → Marks → Marks
  open_all [] m = m
  open_all (chat ∷ chats) m = open_all chats (state (open_chat select chat m))

open_chat_refused :
    (select : String → Option (List String)) (tabs : List String) (chat : Chat) (m : Marks)
    → select ".tab" ≡ some tabs
    → select "#tab[object Object]" ≡ none
    → open_chat select chat m ≡ threw (record m { active = without tabs m.active })
unfolding open_chat
open_chat_refused select tabs chat m h k = ground (arith)

open_all_refused :
    (select : String → Option (List String)) (tabs : List String) (chats : List Chat) (m : Marks)
    (tab : String)
    → select ".tab" ≡ some tabs
    → select "#tab[object Object]" ≡ none
    → is_in tabs tab ≡ true
    → is_in m.active tab ≡ false
    → (is_in (open_all select chats m).active tab ≡ false)
      × ((open_all select chats m).chat_active ≡ m.chat_active)
open_all_refused select tabs [] m tab h k t e = (e, refl)
open_all_refused select tabs (chat ∷ chats) m tab h k t e =
    rw (open_chat_refused select tabs chat m h k, open_all)
      (open_all_refused select tabs chats (record m { active = without tabs m.active }) tab h k t
        (is_in-without tab tabs m.active t))

-- If jQuery refuses the selector "#tab[object Object]", then each click on a conversation throws,
-- and after any clicks, of which there is at least one, no tab is marked 'active', and the
-- conversations bear 'chatActive' as before.
pub open_all-active :
    (select : String → Option (List String)) (tabs : List String) (chat : Chat) (chats : List Chat)
    (m : Marks) (tab : String)
    → select ".tab" ≡ some tabs
    → select "#tab[object Object]" ≡ none
    → is_in tabs tab ≡ true
    → (open_chat select chat m ≡ threw (state (open_chat select chat m)))
      × (is_in (open_all select (chat ∷ chats) m).active tab ≡ false)
      × ((open_all select (chat ∷ chats) m).chat_active ≡ m.chat_active)
open_all-active select tabs chat chats m tab h k t =
    let refused = open_chat_refused select tabs chat m h k in
    let (marked, kept) =
      open_all_refused select tabs chats (record m { active = without tabs m.active }) tab h k t
        (is_in-without tab tabs m.active t) in
    (rw refused refl, rw (refused, open_all) marked, rw (refused, open_all) kept)
