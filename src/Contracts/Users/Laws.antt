-- ===== src/Contracts/Users/Laws.antt =====
-- Each user that has a nick stands at his own index of the list, and nothing else stands there.
use gl_tomsxp.Common.{
  ◌≤◌, ◌≡◌, refl, ℕ, zero, suc, ◌+◌, Option, none, some, true, List, [], ◌∷◌, loose_eq,
  if◌then◌else◌, ltb, nat_eq, arith,
}
use native.Mathlib.Nat.{add-zero, zero-add}
use gl_tomsxp.Contracts.Users.{Account, Entry, entry, assign, fill, user_list}

-- What stands at index `i`; a hole and an index past the end have nothing.
abbrev pub at : {A : Type 0} → List (Option A) → ℕ → Option A
at [] i = none
at (x ∷ xs) zero = x
at (x ∷ xs) (suc i) = at xs i

at-assign :
    {A : Type 0} (i j : ℕ) (x : A) (xs : List (Option A))
    → at (assign i x xs) j ≡ (if nat_eq i j then some x else at xs j)
unfolding assign
at-assign zero zero x [] = ground arith
at-assign zero (suc j) x [] = ground arith
at-assign zero zero x (y ∷ ys) = ground arith
at-assign zero (suc j) x (y ∷ ys) = ground arith
at-assign (suc i) zero x [] = ground arith
at-assign (suc i) (suc j) x [] = ground (arith, at-assign i j x [])
at-assign (suc i) zero x (y ∷ ys) = ground arith
at-assign (suc i) (suc j) x (y ∷ ys) = ground (arith, at-assign i j x ys)

-- The entry that the user at index `i` shall have.
abbrev pub entry_at : List Account → ℕ → Option Entry
entry_at [] i = none
entry_at (u ∷ users) zero = if loose_eq u.nick (some "") then none else some (entry u)
entry_at (u ∷ users) (suc i) = entry_at users i

at-fill_before :
    (i j : ℕ) (users : List Account) (list : List (Option Entry))
    → ltb j i ≡ true
    → at (fill i users list) j ≡ at list j
unfolding fill
at-fill_before i j [] list h = refl
at-fill_before i j (u ∷ users) list h = ground (
  arith,
  at-fill_before (suc i) j users
      (if loose_eq u.nick (some "") then list else assign i (entry u) list) (ground arith),
  at-assign i j (entry u) list,
)

-- One round of the loop.
abbrev round : ℕ → Account → List (Option Entry) → List (Option Entry)
round i u list = if loose_eq u.nick (some "") then list else assign i (entry u) list

at-round_after :
    (i m : ℕ) (u : Account) (list : List (Option Entry))
    → ((m : ℕ) → i ≤ m → at list m ≡ none)
    → suc i ≤ m
    → at (round i u list) m ≡ none
at-round_after i m u list h le = ground (arith, at-assign i m (entry u) list, h m)

at-fill :
    (i j : ℕ) (users : List Account) (list : List (Option Entry))
    → ((m : ℕ) → i ≤ m → at list m ≡ none)
    → at (fill i users list) (i + j) ≡ entry_at users j
unfolding fill
at-fill i j [] list h = h (i + j) (omega arith)
at-fill i zero (u ∷ users) list h = rw add-zero (
    ground (
      arith,
      at-fill_before (suc i) i users (round i u list) (ground arith),
      at-assign i i (entry u) list,
      h i (omega arith),
    ))
at-fill i (suc j) (u ∷ users) list h =
    let shift : i + suc j ≡ suc i + j = omega arith in
    rw shift (at-fill (suc i) j users (round i u list) (λ m le. at-round_after i m u list h le))

-- Each user that has a nick stands, with his nick and id, at his own index of the list, and no
-- other index has an entry.
pub at-user_list : (users : List Account) (i : ℕ) → at (user_list users) i ≡ entry_at users i
unfolding user_list
at-user_list users i = rw zero-add at (at-fill 0 i users [] (λ m le. refl))
