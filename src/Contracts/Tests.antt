-- ===== src/Contracts/Tests.antt =====
-- The pages of contracts at concrete inputs.
use gl_tomsxp.Contracts.Form.Runs as EditRuns
use gl_tomsxp.Contracts.View.Runs as ViewRuns
use gl_tomsxp.Contracts.View.{open_contract, modify}
use gl_tomsxp.Common.{loose_eq, false, ◌≡◌, refl, none, some, List, [], ◌∷◌, arith, done}
use gl_tomsxp.Client.{edit_contract, initial_client, post, put, contract, call_class, json, texts}
use gl_tomsxp.Contracts.Form.Listed.{act_all-lists}
use gl_tomsxp.Contracts.Entries.{is_listed, index_of}
use gl_tomsxp.Contracts.Party.{PartyName, party_label, party_id}
use gl_tomsxp.Contracts.Party.Laws.{party_id-party_label}
use gl_tomsxp.Contracts.Users.{Account, user_list}
use gl_tomsxp.Contracts.Form.{
  Contract, Fields, Form, open_edit, edit_loaded, submit_edit, parties_ids,
}
use gl_tomsxp.Contracts.Form.Laws.{press_party, drop_party, act_all}
use gl_tomsxp.Contracts.Form.Submit.{submit-pending_party, submit_edit-edit_loaded, taken}

abbrev bob : PartyName
bob = record { key = "b0b"; value = "Bob" }

party_label_test : party_label bob ≡ "Bob - b0b"
unfolding party_label
party_label_test = refl

party_id_test : party_id (party_label bob) ≡ some "b0b"
unfolding party_id party_label
party_id_test = refl

party_id-party_label_example : party_id (party_label bob) ≡ some "b0b"
party_id-party_label_example =
    party_id-party_label bob (refl, (refl, (refl, tt))) (refl, (refl, (refl, tt)))

abbrev accounts : List Account
accounts =
    record { id = some "1"; nick = some "" } ∷ record { id = some "2"; nick = some "Bob" } ∷ []

user_list_test : user_list accounts ≡ none ∷ some (record { name = some "Bob"; id = some "2" }) ∷ []
unfolding user_list
user_list_test = refl

abbrev fields : Fields
fields = record { title = some "swap"; add_party = some "Bob - b0b"; add_clause = some "" }

abbrev form : Form
form = record {
  fields = some fields;
  from_party = some "Bob";
  for_party = none;
  parties = some "Ann - a1" ∷ [];
  clauses = some [];
  users = [];
  contract_id = none;
}

submit-pending_party_example : (taken form).parties ≡ some "Ann - a1" ∷ some "Bob - b0b" ∷ []
unfolding index_of parties_ids party_id
submit-pending_party_example =
    (submit-pending_party post initial_client form fields [] (some "a1" ∷ []) "Bob - b0b" refl refl
      refl refl (omega arith) refl).1

abbrev stored : Contract
stored = record { id = some "k"; title = some "swap"; clauses = "x" ∷ []; parties_names = bob ∷ [] }

submit_edit-edit_loaded_example :
    submit_edit (initial_client, edit_loaded stored (open_edit (some "k") initial_client).1)
    ≡ done (
      call_class contract put
          (some "k")
          (("title", json (some "swap"))
            ∷ ("clauses", texts (some "x" ∷ []))
            ∷ ("parties", texts (some "b0b" ∷ []))
            ∷ [])
          initial_client,
      edit_loaded stored (open_edit (some "k") initial_client).1,
    )
submit_edit-edit_loaded_example =
    submit_edit-edit_loaded initial_client initial_client (some "k") stored
      (((refl, (refl, (refl, tt))), (refl, (refl, (refl, tt)))), tt)

act_all-buttons_example :
    (modify (
      ViewRuns.act_all
        (ViewRuns.arrives stored ∷ ViewRuns.signs ∷ [])
        (open_contract (some "k") initial_client))).pending
    ≡ some (edit_contract (some "k"))
act_all-buttons_example =
    (ViewRuns.act_all-buttons (ViewRuns.arrives stored ∷ ViewRuns.signs ∷ []) (some "k")
      initial_client).1

act_all-lists_example :
    is_listed loose_eq
      (some "Ann - a1")
      (act_all (press_party ∷ drop_party (some "Ann - a1") ∷ []) form).parties
    ≡ false
unfolding index_of
act_all-lists_example =
    act_all-lists (some "Ann - a1") (press_party ∷ drop_party (some "Ann - a1") ∷ []) form
      (record { parties = (refl, tt); clauses = tt })
