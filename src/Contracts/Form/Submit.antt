-- ===== src/Contracts/Form/Submit.antt =====
-- What `submit` sends from the pages of src/main/js/modules/contracts.js.
use gl_tomsxp.Common.{
  chars, ◌≡◌, refl, ◌<◌, String, Option, none, some, false, List, [], ◌∷◌, ◌++◌, map, loose_eq, All,
  done, state, arith, if◌then◌else◌, Option-cases, inl, inr, ◌>>=◌, ◌≢◌, ◌&&◌, not,
}
use gl_tomsxp.Client.{Client, json, texts, Verb, put, contract, call_class}
use gl_tomsxp.Contracts.Entries.{is_listed}
use gl_tomsxp.Contracts.Party.{PartyName, party_id}
use gl_tomsxp.Contracts.Party.Laws.{IsClean, HasNoSep, party_id-party_label}
use gl_tomsxp.Contracts.Form.{
  Contract, Fields, Form, parties_ids, units, is_pending, take_party, take_clause, contract_body,
  submit, submit_edit, open_edit, edit_loaded, write_labels,
}

-- Nothing that `submit` reads is undefined.
pub record IsReady (s : Form) : Type 0 where
  pub fields : s.fields ≢ none
  pub clauses : s.clauses ≢ none
  pub parties : All (λ p. p ≢ none) s.parties

parties_ids_total :
    (ps : List (Option String))
    → All (λ p. p ≢ none) ps
    → (ids : List (Option String)) × (parties_ids ps ≡ some ids)
unfolding parties_ids
parties_ids_total [] h = ([], refl)
parties_ids_total (none ∷ ps) (h, rest) = absurd (h refl)
parties_ids_total (some label ∷ ps) (h, rest) =
    let (ids, e) = parties_ids_total ps rest in (party_id label ∷ ids, rw e)

-- The form after `submit` has taken over the two inputs.
abbrev pub taken : Form → Form
taken s = state (take_party s >>= take_clause)

taken_lem :
    (s : Form) (f : Fields) (clauses : List String)
    → s.fields ≡ some f
    → s.clauses ≡ some clauses
    → ((take_party s >>= take_clause) ≡ done (taken s))
      × ((taken s).contract_id ≡ s.contract_id)
      × ((taken s).parties ≡ (
          if is_pending f.add_party && not (is_listed loose_eq f.add_party s.parties)
          then s.parties ++ f.add_party ∷ []
          else s.parties))
unfolding take_party take_clause
taken_lem s f clauses e e' = ground arith

-- If nothing that it reads is undefined, `submit` takes over the two inputs and sends the form, with
-- the ids of the parties that were listed before.
pub submit_lem :
    (verb : Verb) (c : Client) (s : Form) (f : Fields) (clauses : List String)
    (ids : List (Option String))
    → s.fields ≡ some f
    → s.clauses ≡ some clauses
    → parties_ids s.parties ≡ some ids
    → submit verb (c, s)
      ≡ done (call_class contract verb s.contract_id (contract_body (taken s) ids) c, taken s)
unfolding submit
submit_lem verb c s f clauses ids e e' e'' =
    let (finished, id, parties) = taken_lem s f clauses e e' in
    rw (e'', submit, finished) (rw id refl)

-- If the form, the list of clauses and every party are defined, `submit` does not throw.
pub submit_total :
    (verb : Verb) (c : Client) (s : Form)
    → IsReady s
    → (t : Client × Form) × (submit verb (c, s) ≡ done t)
submit_total verb c s r =
    let (ids, e) = parties_ids_total s.parties r.parties in
    elim (Option-cases s.fields) [
      | inl e' ↦ absurd (r.fields e')
      | inr (f, e') ↦ elim (Option-cases s.clauses) [
        | inl e'' ↦ absurd (r.clauses e'')
        | inr (clauses, e'') ↦ (_, submit_lem verb c s f clauses ids e' e'' e)
      ]
    ]

-- A party of more than two letters that is still in the input when the form is submitted, and is not
-- listed yet, is added to the list of the page, and its id is not sent: the ids sent are those of
-- the parties listed before.
pub submit-pending_party :
    (verb : Verb) (c : Client) (s : Form) (f : Fields) (clauses : List String)
    (ids : List (Option String)) (p : String)
    → s.fields ≡ some f
    → s.clauses ≡ some clauses
    → parties_ids s.parties ≡ some ids
    → f.add_party ≡ some p
    → 2 < units p
    → is_listed loose_eq (some p) s.parties ≡ false
    → (submit verb (c, s)
        ≡ done (call_class contract verb s.contract_id (contract_body (taken s) ids) c, taken s))
      × ((taken s).parties ≡ s.parties ++ some p ∷ [])
submit-pending_party verb c s f clauses ids p e e' e'' typed long new =
    let (finished, id, parties) = taken_lem s f clauses e e' in
    (submit_lem verb c s f clauses ids e e' e'', ground arith)

-- The parties of a contract that can be told from their labels.
abbrev pub IsReadable : List PartyName → Type 0
IsReadable = All (λ n. IsClean (chars n.value) × HasNoSep (chars n.key))

parties_ids-write_labels :
    (ns : List PartyName)
    → IsReadable ns
    → parties_ids (write_labels ns []) ≡ some (map (λ n. some n.key) ns)
unfolding parties_ids write_labels
parties_ids-write_labels [] h = refl
parties_ids-write_labels (n ∷ ns) ((clean, plain), rest) =
    rw (party_id-party_label n clean plain, parties_ids-write_labels ns rest)

-- Opening a contract for editing, waiting for it, and submitting it as it is sends its title, its
-- clauses and the ids of its parties back unchanged, by PUT to its own id, if its parties can be told
-- from their labels.
pub submit_edit-edit_loaded :
    (c d : Client) (id : Option String) (k : Contract)
    → IsReadable k.parties_names
    → submit_edit (d, edit_loaded k (open_edit id c).1)
      ≡ done (
        call_class contract put k.id
            (("title", json k.title)
              ∷ ("clauses", texts (map some k.clauses))
              ∷ ("parties", texts (map (λ n. some n.key) k.parties_names))
              ∷ [])
            d,
        edit_loaded k (open_edit id c).1,
      )
unfolding submit_edit edit_loaded open_edit take_party take_clause
submit_edit-edit_loaded c d id k h =
    submit_lem put d (edit_loaded k (open_edit id c).1)
      (record { title = k.title; add_party = none; add_clause = none }) k.clauses
      (map (λ n. some n.key) k.parties_names) refl refl (parties_ids-write_labels k.parties_names h)
