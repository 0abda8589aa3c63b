-- ===== src/Results/Laws.antt =====
-- The list of results against its specification: the first object with each id, in order.
use gl_tomsxp.Common.{
  ◌≡◌, refl, sym, ◌∙◌, ◌≤◌, String, Option, none, some, Bool, true, false, List, [], ◌∷◌, ◌++◌,
  ◌||◌, any, any-append, loose_eq, loose_eq_iff, arith, Bool-cases, inl, inr, if◌then◌else◌, length,
  length-append, append-nil, append_assoc,
}
use gl_tomsxp.Results.{listed, push_result, push_all}

module _ {A : Type 0} (id : A → Option String) where
  -- No two objects of the list have the same id.
  abbrev pub Distinct : List A → Type 0
  Distinct [] = Unit
  Distinct (x ∷ xs) = (listed id x xs ≡ false) × Distinct xs

  -- The objects of a stream that are neither null nor listed before, each id once.
  abbrev pub fresh : List A → List (Option A) → List A
  fresh seen [] = []
  fresh seen (none ∷ node) = fresh seen node
  fresh seen (some x ∷ node) =
      if listed id x seen then fresh seen node else x ∷ fresh (seen ++ x ∷ []) node

  Distinct-concat :
      (xs : List A) (x : A) → Distinct xs → listed id x xs ≡ false → Distinct (xs ++ x ∷ [])
  Distinct-concat [] x d h = (refl, tt)
  Distinct-concat (y ∷ xs) x (new, d) h = (
    ground (
      arith,
      any-append (λ r. loose_eq (id r) (id y)) xs (x ∷ []),
      loose_eq_iff (id x) (id y),
      loose_eq_iff (id y) (id x),
    ),
    Distinct-concat xs x d (ground arith),
  )

  pub push_result-Distinct :
      (x : Option A) (xs : List A) → Distinct xs → Distinct (push_result id x xs)
  unfolding push_result
  push_result-Distinct none xs d = d
  push_result-Distinct (some x) xs d = elim (Bool-cases (listed id x xs)) [
    | inl old ↦ rw old d
    | inr new ↦ rw new (Distinct-concat xs x d new)
  ]

  pub push_all-Distinct :
      (node : List (Option A)) (xs : List A) → Distinct xs → Distinct (push_all id node xs)
  unfolding push_all
  push_all-Distinct [] xs d = d
  push_all-Distinct (x ∷ node) xs d = push_all-Distinct node _ (push_result-Distinct x xs d)

  -- The loop over a node appends exactly its fresh objects, in order: those that are not null and
  -- whose id is neither listed before nor that of an earlier object of the node.
  pub push_all-eq-append :
      (node : List (Option A)) (xs : List A) → push_all id node xs ≡ xs ++ fresh xs node
  unfolding push_all push_result
  push_all-eq-append [] xs = sym (append-nil xs)
  push_all-eq-append (none ∷ node) xs = push_all-eq-append node xs
  push_all-eq-append (some x ∷ node) xs = elim (Bool-cases (listed id x xs)) [
    | inl old ↦ rw old (push_all-eq-append node xs)
    | inr new ↦ rw new (push_all-eq-append node (xs ++ x ∷ []) ∙ append_assoc xs (x ∷ []) _)
  ]

  pub length-le-push_all :
      (node : List (Option A)) (xs : List A) → length xs ≤ length (push_all id node xs)
  length-le-push_all node xs =
      rw push_all-eq-append (omega (arith, length-append xs (fresh xs node)))

  -- Whether some listed object has the id `k`.
  abbrev pub has_id : Option String → List A → Bool
  has_id k xs = any (λ r. loose_eq (id r) k) xs

  abbrev pub node_has_id : Option String → List (Option A) → Bool
  node_has_id k node = any (λ o. elim o [ none ↦ false | some x ↦ loose_eq (id x) k ]) node

  has_id_of_listed :
      (x : A) (k : Option String) (xs : List A)
      → listed id x xs ≡ true
      → loose_eq (id x) k ≡ true
      → has_id k xs ≡ true
  has_id_of_listed x k xs h e = rw ((loose_eq_iff (id x) k).0 e) at h

  has_id-push_result :
      (k : Option String) (x : A) (xs : List A)
      → has_id k (push_result id (some x) xs) ≡ has_id k xs || loose_eq (id x) k
  unfolding push_result
  has_id-push_result k x xs =
      ground (arith, any-append (λ r. loose_eq (id r) k) xs (x ∷ []), has_id_of_listed x k xs)

  -- After a node an id is listed exactly if it was listed before or an object of the node has it.
  pub has_id-push_all :
      (k : Option String) (node : List (Option A)) (xs : List A)
      → has_id k (push_all id node xs) ≡ has_id k xs || node_has_id k node
  unfolding push_all push_result
  has_id-push_all k [] xs = ground arith
  has_id-push_all k (none ∷ node) xs = has_id-push_all k node xs
  has_id-push_all k (some x ∷ node) xs =
      ground (arith, has_id-push_all k node (push_result id (some x) xs), has_id-push_result k x xs)
