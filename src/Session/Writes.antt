-- ===== src/Session/Writes.antt =====
-- Which steps of the client write to the server (src/main/js/modules): the requests other than GET.
use gl_tomsxp.Common.{ap, refl, ◌≡◌, ℕ, ◌+◌, Bool, true, false, List, [], ◌∷◌, arith, if◌then◌else◌}
use gl_tomsxp.Client.{inject, is_user_connected, send, Client, Request, Verb, get, delete, go}
use gl_tomsxp.Users.{submit_login, login_reply, submit_subscribe, subscribe_reply}
use gl_tomsxp.Search.{search_view_item_loaded}
use gl_tomsxp.Items
use gl_tomsxp.Settings.{submit_password, password_reply, submit_contact}
use gl_tomsxp.Messages.Inbox.{open_messages}
use gl_tomsxp.Messages.Inbox
use gl_tomsxp.Messages.Compose.{open_compose}
use gl_tomsxp.Messages.Compose
use gl_tomsxp.Contracts.Form
use gl_tomsxp.Contracts.View.{modify, sign, decline}
use gl_tomsxp.Session.Opening.{Opening, Opens-get, enter-Opening}
use gl_tomsxp.Session.{Reach, Step}

abbrev is_write : Verb → Bool
is_write get = false
is_write _ = true

-- How many of the requests have a verb of that kind.
abbrev pub count : (Verb → Bool) → List Request → ℕ
count p [] = 0
count p (r ∷ rs) = (if p r.verb then 1 else 0) + count p rs

abbrev pub writes : List Request → ℕ
writes rs = count is_write rs

-- The steps that are a press on a button that sends a form, deletes, signs or declines.
abbrev is_press : {c d : Client} → Step c d → Bool
is_press (Step.navigates p) = false
is_press Step.enters = false
is_press (Step.login_answered a s) = false
is_press (Step.subscribe_answered a known) = false
is_press (Step.item_shown id i) = false
is_press Step.item_saved = false
is_press Step.contract_saved = false
is_press (Step.contract_modified s) = false
is_press (Step.message_answered _ s) = false
is_press (Step.message_sent _ s) = false
is_press (Step.receiver_typed s) = false
is_press (Step.password_answered a s) = false
is_press _ = true

abbrev pub presses : {c d : Client} → Reach c d → ℕ
presses Reach.here = 0
presses (Reach.next r step) = presses r + (if is_press step then 1 else 0)

-- What is counted of the requests does not change where GET is not counted.
count-Opening : (p : Verb → Bool) (n : ℕ) → p get ≡ false → Opening (λ c. count p c.sent ≡ n)
unfolding go inject is_user_connected send
count-Opening p n e = record {
  goes = λ q c h. h;
  shows = λ bar c same h. h;
  injects = λ k c h. ground (arith, h);
  guards = λ c h. ground (arith, h);
  sends = λ r c o h. ground (arith, ap p (Opens-get o), e, h);
  leaves = λ c h. h;
  enters = λ q c h. h;
}

abbrev is_delete : Verb → Bool
is_delete delete = true
is_delete _ = false

abbrev pub deletes : List Request → ℕ
deletes rs = count is_delete rs

-- The steps that are a press on a button that deletes.
abbrev is_delete_press : {c d : Client} → Step c d → Bool
is_delete_press (Step.item_deleted i) = true
is_delete_press (Step.contract_deleted s) = true
is_delete_press _ = false

abbrev pub delete_presses : {c d : Client} → Reach c d → ℕ
delete_presses Reach.here = 0
delete_presses (Reach.next r step) = delete_presses r + (if is_delete_press step then 1 else 0)

Step-deletes :
    {c d : Client} (step : Step c d)
    → deletes d.sent ≡ deletes c.sent + (if is_delete_press step then 1 else 0)
unfolding submit_login login_reply submit_subscribe subscribe_reply search_view_item_loaded
    Items.submit_add Items.submit_edit Items.submit_sub Items.saved Form.submit_add Form.submit_edit
    Form.delete_edit Form.saved modify sign decline Inbox.add_message Inbox.add_answered
    Compose.submit Compose.send_answered Compose.user_auto_complete submit_password password_reply
    submit_contact go
Step-deletes {c} Step.enters =
    let same = enter-Opening (count-Opening is_delete (deletes c.sent) refl) c refl in
    omega (arith, same)
Step-deletes _ = ground arith

-- A press on the button that deletes an item or a contract sends one DELETE, and nothing else sends
-- any, in every run of the client.
pub Reach-deletes :
    {c d : Client} (r : Reach c d) → deletes d.sent ≡ deletes c.sent + delete_presses r
Reach-deletes Reach.here = omega arith
Reach-deletes (Reach.next r step) = omega (arith, Reach-deletes r, Step-deletes step)
