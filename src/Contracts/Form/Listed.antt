-- ===== src/Contracts/Form/Listed.antt =====
-- Which parties the form of a contract lists after any use of its buttons
-- (`updateParties` and `deleteParty` of src/main/js/modules/contracts.js).
use gl_tomsxp.Common.{
  ◌≡◌, refl, ap, sym, ◌∙◌, String, Option, none, some, Bool, List, [], ◌∷◌, ◌++◌, loose_eq,
  loose_eq_iff, arith, state, Option-cases, inl, inr, ◌&&◌, not, ◌||◌,
}
use gl_tomsxp.Contracts.Entries.{is_listed}
use gl_tomsxp.Contracts.Entries.Laws.{
  is_listed-append, is_listed-cons, is_listed-nil, is_listed-delete_entry,
}
use gl_tomsxp.Contracts.Form.{
  Fields, Form, update_parties, update_clauses, push_clause, delete_party, delete_clause,
}
use gl_tomsxp.Contracts.Form.Laws.{
  Act, press_party, press_clause, drop_party, drop_clause, typed, act, act_all, IsDistinct,
  act-IsDistinct,
}

-- What the user asks for: a party, or to be rid of one.
pub data Wish : Type 0 where
  adds drops : Option String → Wish

-- The button that adds asks for what is typed, as far as there is a form.
abbrev wishes_of : Act → Form → List Wish
wishes_of press_party s = elim s.fields [ none ↦ [] | some f ↦ adds f.add_party ∷ [] ]
wishes_of (drop_party p) s = drops p ∷ []
wishes_of _ s = []

abbrev pub wishes : List Act → Form → List Wish
wishes [] s = []
wishes (a ∷ acts) s = wishes_of a s ++ wishes acts (act a s)

-- Whether `p` is wanted, after the wishes, if `b` says so before.
abbrev pub wanted : Option String → List Wish → Bool → Bool
wanted p [] b = b
wanted p (adds q ∷ ws) b = wanted p ws (b || loose_eq q p)
wanted p (drops q ∷ ws) b = wanted p ws (b && not (loose_eq q p))

wanted-append :
    (p : Option String) (ws vs : List Wish) (b : Bool)
    → wanted p (ws ++ vs) b ≡ wanted p vs (wanted p ws b)
wanted-append p [] vs b = refl
wanted-append p (adds q ∷ ws) vs b = wanted-append p ws vs _
wanted-append p (drops q ∷ ws) vs b = wanted-append p ws vs _

abbrev lists : Option String → Form → Bool
lists p s = is_listed loose_eq p s.parties

update_parties-lists :
    (p : Option String) (s : Form) (f : Fields)
    → s.fields ≡ some f
    → lists p (state (update_parties s)) ≡ lists p s || loose_eq f.add_party p
unfolding update_parties
update_parties-lists p s f e =
    rw (e, update_parties)
      (ground (
        arith,
        is_listed-append loose_eq loose_eq_iff p s.parties (f.add_party ∷ []),
        is_listed-cons loose_eq loose_eq_iff p f.add_party [],
        is_listed-nil loose_eq loose_eq_iff p,
        loose_eq_iff f.add_party p,
      ))

update_clauses-parties : (s : Form) → (state (update_clauses s)).parties ≡ s.parties
unfolding update_clauses push_clause
update_clauses-parties s = ground arith

delete_clause-parties : (k : String) (s : Form) → (state (delete_clause k s)).parties ≡ s.parties
unfolding delete_clause
delete_clause-parties k s = ground arith

act-lists :
    (p : Option String) (a : Act) (s : Form)
    → IsDistinct s
    → lists p (act a s) ≡ wanted p (wishes_of a s) (lists p s)
unfolding delete_party update_parties
act-lists p press_party s d = elim (Option-cases s.fields) [
  | inl e ↦ rw (e, update_parties) refl
  | inr (f, e) ↦ update_parties-lists p s f e ∙ rw e refl
]
act-lists p press_clause s d = ap (is_listed loose_eq p) (update_clauses-parties s)
act-lists p (drop_party q) s d =
    is_listed-delete_entry loose_eq loose_eq_iff q p s.parties d.parties
act-lists p (drop_clause k) s d = ap (is_listed loose_eq p) (delete_clause-parties k s)
act-lists p (typed fields from for_whom) s d = refl

-- In a form in which nothing stands twice, a party is listed after any typing and pressing exactly
-- if the last press that asked for it or for its removal asked for it, or there was no such press and
-- it was listed before.
pub act_all-lists :
    (p : Option String) (acts : List Act) (s : Form)
    → IsDistinct s
    → is_listed loose_eq p (act_all acts s).parties
      ≡ wanted p (wishes acts s) (is_listed loose_eq p s.parties)
act_all-lists p [] s d = refl
act_all-lists p (a ∷ acts) s d =
    act_all-lists p acts (act a s) (act-IsDistinct a s d)
    ∙ ap (wanted p (wishes acts (act a s))) (act-lists p a s d)
    ∙ sym (wanted-append p (wishes_of a s) (wishes acts (act a s)) (lists p s))
