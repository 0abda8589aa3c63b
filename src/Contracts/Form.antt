-- ===== src/Contracts/Form.antt =====
-- The pages that add and edit a contract: the controllers 'addContract' and 'editContract' and the
-- functions below them in src/main/js/modules/contracts.js.
pub mod Laws
pub mod Listed
pub mod Runs
pub mod Submit
pub mod Twice
use gl_tomsxp.Common.{
  ◌++◌, map, ℕ, zero, suc, ◌+◌, ltb, code, String, Option, none, some, Bool, true, false, List, [],
  ◌∷◌, loose_eq, ◌==◌, if◌then◌else◌, join, shown, Outcome, done, threw, ◌>>=◌,
}
use gl_tomsxp.Client.{
  Client, Json, json, texts, text, missing, Verb, post, put, delete, get, contract, empty_header,
  flag, header, inject, go, call_class, view_contracts,
}
use gl_tomsxp.Contracts.Entries.{delete_entry, is_listed}
use gl_tomsxp.Contracts.Party.{PartyName, party_label, party_id}
use gl_tomsxp.Contracts.Users.{Account, Entry, user_list, get_users}
use mathlib.Core.Option

-- A contract as the server sends it.
pub record Contract : Type 0 where
  pub id : Option String
  pub title : Option String
  pub clauses : List String
  pub parties_names : List PartyName

-- `$scope.form`; an input that was not touched is undefined.
pub record Fields : Type 0 where
  pub title : Option String
  pub add_party : Option String
  pub add_clause : Option String

-- The scope of both pages, and the id of the contract object that the edit page has loaded.
-- `fields` is `none` while `$scope.form` is undefined, and `clauses` while `$scope.clauses` is.
pub record Form : Type 0 where
  pub fields : Option Fields
  pub from_party : Option String
  pub for_party : Option String
  pub parties : List (Option String)
  pub clauses : Option (List String)
  pub users : List (Option Entry)
  pub contract_id : Option String

-- `updateParties`
unfoldable pub update_parties : Form → Outcome Form
update_parties s = elim s.fields [
  | none ↦ threw s
  | some f ↦ done (
      if is_listed loose_eq f.add_party s.parties then s else record s {
        parties = s.parties ++ f.add_party ∷ [];
        fields = some (record f { add_party = some "" });
      })
]

abbrev pub clause_text : Option String → Option String → Option String → String
clause_text from what for_whom =
    join (shown from ∷ " gives " ∷ shown what ∷ " to " ∷ shown for_whom ∷ [])

-- `updateClauses`
unfoldable pub push_clause : Form → Fields → List String → Form
push_clause s f clauses =
    let clause : String = clause_text s.from_party f.add_clause s.for_party in
    if is_listed ◌==◌ clause clauses then s else record s {
      clauses = some (clauses ++ clause ∷ []);
      fields = some (record f { add_clause = some "" });
    }

unfoldable pub update_clauses : Form → Outcome Form
unfolding push_clause
update_clauses s = elim s.fields [
  | none ↦ threw s
  | some f ↦ elim s.clauses [ none ↦ threw s | some clauses ↦ done (push_clause s f clauses) ]
]

-- `deleteParty`
unfoldable pub delete_party : Option String → Form → Form
delete_party p s = record s { parties = delete_entry loose_eq p s.parties }

-- `deleteClause`
unfoldable pub delete_clause : String → Form → Outcome Form
delete_clause clause s = elim s.clauses [
  | none ↦ threw s
  | some clauses ↦ done (record s { clauses = some (delete_entry ◌==◌ clause clauses) })
]

-- The answer to `getUsers`.
unfoldable pub users_loaded : List Account → Form → Form
users_loaded users s = record s { users = user_list users }

-- The loop that collects `partiesId`; `none` where an entry is undefined, and `split` throws.
unfoldable pub parties_ids : List (Option String) → Option (List (Option String))
parties_ids [] = some []
parties_ids (none ∷ ps) = none
parties_ids (some label ∷ ps) = Option.map (party_id label ∷◌) (parties_ids ps)

-- The length of a text, in units of 16 bits.
abbrev pub units : String → ℕ
units String.[] = 0
units (String.◌∷◌ c s) = (if ltb (code c) 0x10000 then 1 else 2) + units s

-- `t != null && t.length > 2`
abbrev pub is_pending : Option String → Bool
is_pending none = false
is_pending (some t) = ltb 2 (units t)

-- The two lines of `submit` that take over what is still in the inputs.
unfoldable pub take_party : Form → Outcome Form
unfolding update_parties
take_party s = elim s.fields [
  | none ↦ threw s
  | some f ↦ if is_pending f.add_party then update_parties s else done s
]

unfoldable pub take_clause : Form → Outcome Form
unfolding update_clauses
take_clause s = elim s.fields [
  | none ↦ threw s
  | some f ↦ if is_pending f.add_clause then update_clauses s else done s
]

-- What `submit` sets of the contract; what else of it came from the server is sent along as it is.
abbrev pub contract_body : Form → List (Option String) → List (String × Json)
contract_body s ids =
    ("title", elim s.fields [ none ↦ missing | some f ↦ json f.title ])
    ∷ ("clauses", elim s.clauses [ none ↦ missing | some clauses ↦ texts (map some clauses) ])
    ∷ ("parties", texts ids)
    ∷ []

-- `submit`: the ids are collected first, then the inputs are taken over, then `verb` is sent.
abbrev pub issue : Verb → List (Option String) → Client → Outcome Form → Outcome (Client × Form)
issue verb ids c (threw s) = threw (c, s)
issue verb ids c (done s) = done (call_class contract verb s.contract_id (contract_body s ids) c, s)

unfoldable pub submit : Verb → Client × Form → Outcome (Client × Form)
unfolding parties_ids take_party take_clause call_class
submit verb (c, s) = elim (parties_ids s.parties) [
  | none ↦ threw (c, s)
  | some ids ↦ issue verb ids c (take_party s >>= take_clause)
]

unfoldable pub open_add : Client → Client × Form
unfolding header inject get_users
open_add c = (
  get_users (
      header (record empty_header { back = some (flag true); title = some "Add contracts" })
        (inject contract c)),
  record {
    fields = none;
    from_party = none;
    for_party = none;
    parties = [];
    clauses = some [];
    users = [];
    contract_id = none;
  },
)

-- `new Contract(…)` and `$save`
unfoldable pub submit_add : Client × Form → Outcome (Client × Form)
unfolding submit
submit_add = submit post

unfoldable pub open_edit : Option String → Client → Client × Form
unfolding header inject get_users call_class
open_edit id c = (
  call_class contract get id [] (
      get_users (
        header
          (record empty_header {
            back = some (flag true);
            title = some "Edit contracts";
            context_id = some id;
          })
          (inject contract c))),
  record {
    fields = some (record { title = none; add_party = none; add_clause = none });
    from_party = none;
    for_party = none;
    parties = [];
    clauses = none;
    users = [];
    contract_id = none;
  },
)

-- The loop that writes the labels to the indices 0, 1, … of the list of parties.
unfoldable pub write_labels : List PartyName → List (Option String) → List (Option String)
write_labels [] ps = ps
write_labels (n ∷ ns) [] = some (party_label n) ∷ write_labels ns []
write_labels (n ∷ ns) (p ∷ ps) = some (party_label n) ∷ write_labels ns ps

abbrev pub set_title : Option String → Option Fields → Option Fields
set_title title none = none
set_title title (some f) = some (record f { title = title })

-- The callback of `Contract.get` on the edit page.
unfoldable pub edit_loaded : Contract → Form → Form
unfolding write_labels
edit_loaded k s = record s {
  fields = set_title k.title s.fields;
  clauses = some k.clauses;
  parties = write_labels k.parties_names s.parties;
  contract_id = k.id;
}

-- `contract.$update`
unfoldable pub submit_edit : Client × Form → Outcome (Client × Form)
unfolding submit
submit_edit = submit put

-- `$scope.delete`
unfoldable pub delete_edit : Client × Form → Client × Form
unfolding call_class
delete_edit (c, s) = (call_class contract delete s.contract_id [] c, s)

-- The callbacks of `$save`, `$update` and `$delete`.
unfoldable pub saved : Client → Client
unfolding go
saved c = go view_contracts c
