-- ===== src/Contracts/Form/Twice.antt =====
-- Pressing "submit" twice on the pages of src/main/js/modules/contracts.js.
use gl_tomsxp.Common.{
  state, ◌≡◌, ◌<◌, ◌≢◌, String, Option, none, some, false, List, [], ◌∷◌, ◌++◌, loose_eq, done,
  arith, Option-cases, inl, inr, ap, ◌∙◌,
}
use gl_tomsxp.Client.{Client, Verb, contract, call_class}
use gl_tomsxp.Contracts.Entries.{is_listed}
use gl_tomsxp.Contracts.Party.{party_id}
use gl_tomsxp.Contracts.Form.{
  Fields, Form, parties_ids, units, contract_body, submit, take_party, take_clause,
}
use gl_tomsxp.Contracts.Form.Submit.{taken, submit_lem, submit-pending_party}

parties_ids-concat :
    (ps : List (Option String)) (p : String) (ids : List (Option String))
    → parties_ids ps ≡ some ids
    → parties_ids (ps ++ some p ∷ []) ≡ some (ids ++ party_id p ∷ [])
unfolding parties_ids
parties_ids-concat [] p ids e = ground arith
parties_ids-concat (none ∷ ps) p ids e = cc
parties_ids-concat (some label ∷ ps) p ids e = elim (Option-cases (parties_ids ps)) [
  | inl e' ↦ ground arith
  | inr (rest, e') ↦ ground (arith, parties_ids-concat ps p rest)
]

taken_keeps :
    (s : Form)
    → s.fields ≢ none
    → s.clauses ≢ none
    → ((taken s).fields ≢ none)
      × ((taken s).clauses ≢ none)
      × ((taken s).contract_id ≡ s.contract_id)
unfolding take_party take_clause
taken_keeps s h k = elim (Option-cases s.fields) [
  | inl e ↦ absurd (h e)
  | inr (f, e) ↦ elim (Option-cases s.clauses) [
    | inl e' ↦ absurd (k e')
    | inr (clauses, e') ↦ (ground arith, ground arith, ground arith)
  ]
]

submit_ready :
    (verb : Verb) (c : Client) (s : Form) (ids : List (Option String))
    → s.fields ≢ none
    → s.clauses ≢ none
    → parties_ids s.parties ≡ some ids
    → submit verb (c, s)
      ≡ done (call_class contract verb s.contract_id (contract_body (taken s) ids) c, taken s)
submit_ready verb c s ids h k e = elim (Option-cases s.fields) [
  | inl e' ↦ absurd (h e')
  | inr (f, e') ↦ elim (Option-cases s.clauses) [
    | inl e'' ↦ absurd (k e'')
    | inr (clauses, e'') ↦ submit_lem verb c s f clauses ids e' e'' e
  ]
]

-- A party of more than two letters that is still in the input, and is not listed yet, is left out by
-- the first press of "submit"; a second press sends the form once more, by the same verb to the same
-- contract, now with that party's id at the end of the ids.
pub submit-submit :
    (verb : Verb) (c : Client) (s : Form) (f : Fields) (clauses : List String)
    (ids : List (Option String)) (p : String)
    → s.fields ≡ some f
    → s.clauses ≡ some clauses
    → parties_ids s.parties ≡ some ids
    → f.add_party ≡ some p
    → 2 < units p
    → is_listed loose_eq (some p) s.parties ≡ false
    → let first = contract_body (taken s) ids in
      let second = contract_body (taken (taken s)) (ids ++ party_id p ∷ []) in
      (submit verb (c, s) ≡ done (call_class contract verb s.contract_id first c, taken s))
      × (submit verb (state (submit verb (c, s)))
          ≡ done (
            call_class contract verb s.contract_id second
                (call_class contract verb s.contract_id first c),
            taken (taken s),
          ))
submit-submit verb c s f clauses ids p e e' e'' typed long new =
    let (first, grown) = submit-pending_party verb c s f clauses ids p e e' e'' typed long new in
    let (fields, listed, same) = taken_keeps s (λ n. cc) (λ n. cc) in
    let c' : Client = call_class contract verb s.contract_id (contract_body (taken s) ids) c in
    let all : parties_ids (taken s).parties ≡ some (ids ++ party_id p ∷ []) =
      ap parties_ids grown ∙ parties_ids-concat s.parties p ids e'' in
    (
      first,
      ap (λ o. submit verb (state o)) first
          ∙ submit_ready verb c' (taken s) (ids ++ party_id p ∷ []) fields listed all
          ∙ ap
              (λ id. done (
                call_class contract verb id
                    (contract_body (taken (taken s)) (ids ++ party_id p ∷ [])) c',
                taken (taken s),
              ))
              same,
    )
