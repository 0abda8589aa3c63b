-- ===== src/Contracts/Entries/Laws.antt =====
-- Adding and deleting entries (`updateParties`, `deleteParty`, `updateClauses`, `deleteClause`).
use gl_tomsxp.Common.{
  ◌≡◌, refl, Bool, true, false, List, [], ◌∷◌, ◌++◌, ◌↔◌, ◌||◌, ◌&&◌, not, if◌then◌else◌, arith,
  Bool-cases, inl, inr, ◌≢◌,
}
use gl_tomsxp.Contracts.Entries.{index_of, delete_entry, is_listed}

module _ {A : Type 0} (eq : A → A → Bool) (eq_spec : (a b : A) → (eq a b ≡ true) ↔ (a ≡ b)) where
  -- No entry stands twice.
  abbrev pub Distinct : List A → Type 0
  Distinct [] = Unit
  Distinct (x ∷ xs) = (is_listed eq x xs ≡ false) × Distinct xs

  pub is_listed-nil : (x : A) → is_listed eq x [] ≡ false
  unfolding index_of
  is_listed-nil x = refl

  pub is_listed-cons :
      (x y : A) (ys : List A) → is_listed eq x (y ∷ ys) ≡ eq y x || is_listed eq x ys
  unfolding index_of
  is_listed-cons x y ys = ground arith

  pub is_listed-append :
      (x : A) (xs ys : List A) → is_listed eq x (xs ++ ys) ≡ is_listed eq x xs || is_listed eq x ys
  is_listed-append x [] ys = unfold index_of in refl
  is_listed-append x (y ∷ xs) ys =
      ground (arith, is_listed-cons x y (xs ++ ys), is_listed-cons x y xs, is_listed-append x xs ys)

  delete_entry-cons :
      (x y : A) (ys : List A)
      → delete_entry eq x (y ∷ ys) ≡ (if eq y x then ys else y ∷ delete_entry eq x ys)
  unfolding delete_entry
  delete_entry-cons x y ys = ground arith

  is_listed-delete_ne :
      (x y : A) (xs : List A) → x ≢ y → is_listed eq y (delete_entry eq x xs) ≡ is_listed eq y xs
  is_listed-delete_ne x y [] ne = unfold delete_entry in refl
  is_listed-delete_ne x y (z ∷ xs) ne = ground (
    arith,
    delete_entry-cons x z xs,
    is_listed-cons y z xs,
    is_listed-cons y z (delete_entry eq x xs),
    is_listed-delete_ne x y xs ne,
    eq_spec z x,
    eq_spec z y,
  )

  pub delete_entry-Distinct : (x : A) (xs : List A) → Distinct xs → Distinct (delete_entry eq x xs)
  delete_entry-Distinct x [] d = unfold delete_entry in tt
  delete_entry-Distinct x (y ∷ xs) (new, d) = elim (Bool-cases (eq y x)) [
    | inl same ↦ rw (delete_entry-cons, same) d
    | inr other ↦
        rw (delete_entry-cons, other)
          (ground (arith, is_listed-delete_ne x y xs, eq_spec y x), delete_entry-Distinct x xs d)
  ]

  pub Distinct-concat :
      (xs : List A) (x : A) → Distinct xs → is_listed eq x xs ≡ false → Distinct (xs ++ x ∷ [])
  Distinct-concat [] x d h = unfold index_of in (refl, tt)
  Distinct-concat (y ∷ xs) x (new, d) h = (
    ground (
      arith,
      is_listed-append y xs (x ∷ []),
      is_listed-cons y x [],
      is_listed-cons x y xs,
      eq_spec x y,
      eq_spec y x,
      is_listed-nil y,
    ),
    Distinct-concat xs x d (ground (arith, is_listed-cons x y xs)),
  )

  -- In a list without repetitions an entry is listed after a deletion exactly if it was listed
  -- before and is another one.
  pub is_listed-delete_entry :
      (x y : A) (xs : List A)
      → Distinct xs
      → is_listed eq y (delete_entry eq x xs) ≡ is_listed eq y xs && not (eq x y)
  is_listed-delete_entry x y [] d = unfold delete_entry in refl
  is_listed-delete_entry x y (z ∷ xs) (new, d) = ground (
    arith,
    delete_entry-cons x z xs,
    is_listed-cons y z xs,
    is_listed-cons y z (delete_entry eq x xs),
    is_listed-delete_entry x y xs d,
    eq_spec z x,
    eq_spec z y,
    eq_spec x y,
  )

  -- Deleting an entry that was just pushed, and was not listed before, gives back the list.
  pub delete_entry-concat :
      (x : A) (xs : List A) → is_listed eq x xs ≡ false → delete_entry eq x (xs ++ x ∷ []) ≡ xs
  delete_entry-concat x [] h = ground (arith, delete_entry-cons x x [], eq_spec x x)
  delete_entry-concat x (y ∷ ys) h =
      ground (
        arith,
        delete_entry-cons x y (ys ++ x ∷ []),
        is_listed-cons x y ys,
        delete_entry-concat x ys,
      )
