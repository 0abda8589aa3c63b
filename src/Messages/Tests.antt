-- ===== src/Messages/Tests.antt =====
-- The pages of messages at concrete inputs.
use gl_tomsxp.Messages.Inbox.Runs
use gl_tomsxp.Messages.Inbox.Order.{IsNeat, act_all-IsNeat}
use gl_tomsxp.Messages.Tabs.{Marks}
use gl_tomsxp.Common.{
  ◌⊎◌, ◌==◌, List, Option, String, if◌then◌else◌, nat_eq, ◌≡◌, refl, ℕ, zero, suc, none, some, true,
  false, [], ◌∷◌, arith, state, get_elem?,
}
use gl_tomsxp.Client.{initial_client}
use gl_tomsxp.Messages.Object.{array_index, entries}
use gl_tomsxp.Messages.Inbox.{Chat, open_messages, Inbox, Message, unset}
use gl_tomsxp.Messages.Compose.{
  search_received, send_started, user_auto_complete, Compose, Found, submit, select_user,
}
use gl_tomsxp.Messages.Compose
use gl_tomsxp.Messages.Compose.Laws.{receives, letter}
use gl_tomsxp.Results.{push_all, push_result}
use gl_tomsxp.Messages.Compose.Runs.{
  Reach-submit, Reach, next, here, does, clicks, Displayed, first,
}
use gl_tomsxp.Messages.Display.{Talk, initial_display}
use gl_tomsxp.Messages.Display.Laws.{toggle_all-IsValid, toggle_all, IsValid}

-- Array indices come first, in ascending order.
entries_test :
    entries (("bob", none) ∷ ("10", none) ∷ ("9", none) ∷ ("01", none) ∷ [])
    ≡ ("9", none) ∷ ("10", none) ∷ ("bob", none) ∷ ("01", none) ∷ []
unfolding entries array_index
entries_test = refl

abbrev hello : Message
hello = record {
  sender_name = some "Bob";
  sender_id = some "2";
  receiver_name = some "Ann";
  receiver_id = some "1";
  content = some "hello";
}

abbrev inbox : Inbox
inbox = record {
  nick = some "Ann";
  messages = some hello ∷ [];
  chats = [];
  stream = none;
  status = unset;
  search_messages = true;
}

abbrev letter_page : Compose
letter_page = record {
  receiver_name = some "bo";
  receiver_id = none;
  receiver_key = none;
  content = some "hello";
  results = [];
  stream = none;
  status = Compose.unset;
  error_username = false;
  error_fields = false;
  error_search = false;
  send_message = false;
  search_user = false;
  hide_after_selected = false;
  aborted = [];
}

abbrev bob : Found
bob = record { id = some "2"; nick = some "Bob"; key = none }

initial_display-IsValid : IsValid initial_display
unfolding initial_display
initial_display-IsValid = record { current = omega arith; only = one_shown }
  where
    one_shown :
        (i : ℕ) (t : Talk)
        → get_elem? initial_display.users i ≡ some t
        → (t.show ≡ nat_eq i 0) × (t.activity ≡ (if nat_eq i 0 then "active" else ""))
    one_shown zero t e = ground arith
    one_shown (suc zero) t e = ground arith
    one_shown (suc (suc zero)) t e = ground arith
    one_shown (suc (suc (suc i))) t e = cc

-- A page with one tab, and the selectors that it answers.
select : String → Option (List String)
select selector = if selector == ".tab" then some ("tabBob" ∷ []) else none

abbrev bob_chat : Chat
bob_chat = record { name = "Bob"; id = some "2" }

abbrev marked : Marks
marked = record { active = "tabBob" ∷ []; chat_active = [] }

toggle_all-IsValid_example : (toggle_all (2 ∷ 1 ∷ []) initial_display).current_user ≡ 1
unfolding initial_display
toggle_all-IsValid_example =
    (toggle_all-IsValid (2 ∷ 1 ∷ []) initial_display initial_display-IsValid
      (omega arith, (omega arith, tt))).1

abbrev ann_found : Found
ann_found = record { id = some "7"; nick = some "Ann"; key = some (some "65537") }

abbrev ann_listed : Compose
ann_listed = record letter_page { results = ann_found ∷ []; error_search = false }

ann_chosen :
    Reach initial_client letter_page initial_client (state (select_user ann_found ann_listed))
unfolding search_received push_all push_result
ann_chosen =
    next (next here (does (receives (some (some ann_found ∷ []))))) (clicks ann_found first)

Reach-submit_example :
    let s = state (select_user ann_found ann_listed) in
    ((submit (initial_client, s)).0.sent ≡ initial_client.sent)
    ⊎ (((submit (initial_client, s)).0.sent ≡ letter initial_client s ∷ initial_client.sent)
        × (u : Found) × Displayed u s.results
        × (u.id ≡ s.receiver_id))
Reach-submit_example = Reach-submit refl tt ann_chosen

act_all-IsNeat_example :
    IsNeat
      (Runs.act_all
        (Runs.Act.user_arrives (some "Ann")
          ∷ Runs.Act.node_arrives (some (some hello ∷ none ∷ []))
          ∷ [])
        (open_messages initial_client)).1.chats
act_all-IsNeat_example =
    act_all-IsNeat
      (Runs.Act.user_arrives (some "Ann")
        ∷ Runs.Act.node_arrives (some (some hello ∷ none ∷ []))
        ∷ [])
      initial_client
