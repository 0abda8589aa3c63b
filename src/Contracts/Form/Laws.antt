-- ===== src/Contracts/Form/Laws.antt =====
-- What a submitted contract holds, and what the buttons of the form keep
-- (src/main/js/modules/contracts.js).
use gl_tomsxp.Common.{
  ◌∷◌, Option, ◌≡◌, String, none, some, List, [], loose_eq, loose_eq_iff, ◌==◌, eq_iff, state,
  Bool-cases, Option-cases, inl, inr,
}
use gl_tomsxp.Contracts.Entries.{is_listed}
use gl_tomsxp.Contracts.Entries.Laws.{delete_entry-Distinct, Distinct, Distinct-concat}
use gl_tomsxp.Contracts.Form.{
  delete_clause, delete_party, clause_text, Fields, Form, update_parties, update_clauses,
  push_clause,
}

abbrev pub clauses_of : Form → List String
clauses_of s = elim s.clauses [ none ↦ [] | some clauses ↦ clauses ]

-- No party and no clause stands twice in the form.
pub record IsDistinct (s : Form) : Type 0 where
  pub parties : Distinct loose_eq loose_eq_iff s.parties
  pub clauses : Distinct ◌==◌ eq_iff (clauses_of s)

update_parties-IsDistinct : (s : Form) → IsDistinct s → IsDistinct (state (update_parties s))
unfolding update_parties
update_parties-IsDistinct s d = elim (Option-cases s.fields) [
  | inl e ↦ rw (e, update_parties) d
  | inr (f, e) ↦
      rw (e, update_parties)
        (elim (Bool-cases (is_listed loose_eq f.add_party s.parties)) [
          | inl old ↦ rw old d
          | inr new ↦ rw new (record {
            parties = Distinct-concat loose_eq loose_eq_iff s.parties f.add_party d.parties new;
            clauses = d.clauses;
          })
        ])
]

push_clause-IsDistinct :
    (s : Form) (f : Fields) (clauses : List String)
    → Distinct loose_eq loose_eq_iff s.parties
    → Distinct ◌==◌ eq_iff clauses
    → s.clauses ≡ some clauses
    → IsDistinct (push_clause s f clauses)
unfolding push_clause
push_clause-IsDistinct s f clauses d d' e =
    elim (Bool-cases (is_listed ◌==◌ (clause_text s.from_party f.add_clause s.for_party) clauses)) [
      | inl old ↦ rw old (record { parties = d; clauses = rw e d' })
      | inr new ↦ rw new (record {
        parties = d;
        clauses =
            Distinct-concat ◌==◌ eq_iff clauses (clause_text s.from_party f.add_clause s.for_party)
              d' new;
      })
    ]

update_clauses-IsDistinct : (s : Form) → IsDistinct s → IsDistinct (state (update_clauses s))
unfolding update_clauses
update_clauses-IsDistinct s d = elim (Option-cases s.fields) [
  | inl e ↦ rw (e, update_clauses) d
  | inr (f, e) ↦
      rw (e, update_clauses)
        (elim (Option-cases s.clauses) [
          | inl e' ↦ rw e' d
          | inr (clauses, e') ↦
              rw e' (push_clause-IsDistinct s f clauses d.parties (rw e' at d.clauses) e')
        ])
]

delete_party-IsDistinct :
    (p : Option String) (s : Form) → IsDistinct s → IsDistinct (delete_party p s)
unfolding delete_party
delete_party-IsDistinct p s d = record {
  parties = delete_entry-Distinct loose_eq loose_eq_iff p s.parties d.parties;
  clauses = d.clauses;
}

delete_clause-IsDistinct :
    (clause : String) (s : Form) → IsDistinct s → IsDistinct (state (delete_clause clause s))
unfolding delete_clause
delete_clause-IsDistinct clause s d = elim (Option-cases s.clauses) [
  | inl e ↦ rw (e, delete_clause) d
  | inr (clauses, e) ↦
      rw (e, delete_clause)
        (record {
          parties = d.parties;
          clauses = delete_entry-Distinct ◌==◌ eq_iff clause clauses (rw e at d.clauses);
        })
]

-- The buttons of the form, and what is typed into it.
pub data Act : Type 0 where
  press_party press_clause : Act
  drop_party : Option String → Act
  drop_clause : String → Act
  typed : Option Fields → Option String → Option String → Act

abbrev pub act : Act → Form → Form
act press_party s = state (update_parties s)
act press_clause s = state (update_clauses s)
act (drop_party p) s = delete_party p s
act (drop_clause clause) s = state (delete_clause clause s)
act (typed fields from for_whom) s = record s {
  fields = fields;
  from_party = from;
  for_party = for_whom;
}

abbrev pub act_all : List Act → Form → Form
act_all [] s = s
act_all (a ∷ acts) s = act_all acts (act a s)

pub act-IsDistinct : (a : Act) (s : Form) → IsDistinct s → IsDistinct (act a s)
act-IsDistinct press_party s d = update_parties-IsDistinct s d
act-IsDistinct press_clause s d = update_clauses-IsDistinct s d
act-IsDistinct (drop_party p) s d = delete_party-IsDistinct p s d
act-IsDistinct (drop_clause clause) s d = delete_clause-IsDistinct clause s d
act-IsDistinct (typed fields from for_whom) s d = record {
  parties = d.parties;
  clauses = d.clauses;
}

-- If no party and no clause stands twice in the form, none comes to, whatever is typed and pressed,
-- with the buttons that throw included.
pub act_all-IsDistinct : (acts : List Act) (s : Form) → IsDistinct s → IsDistinct (act_all acts s)
act_all-IsDistinct [] s d = d
act_all-IsDistinct (a ∷ acts) s d = act_all-IsDistinct acts (act a s) (act-IsDistinct a s d)
