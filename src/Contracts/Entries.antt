-- ===== src/Contracts/Entries.antt =====
-- The lists of parties and of clauses as src/main/js/modules/contracts.js changes them, with
-- `indexOf` and `splice` written out; `none` is the index -1.
pub mod Laws
use gl_tomsxp.Common.{
  ℕ, zero, suc, Option, none, some, Bool, List, [], ◌∷◌, ◌++◌, if◌then◌else◌, is_some, not,
}
use mathlib.Core.Option

module _ {A : Type 0} (eq : A → A → Bool) where
  unfoldable pub index_of : A → List A → Option ℕ
  index_of x [] = none
  index_of x (y ∷ ys) = if eq y x then some 0 else Option.map suc (index_of x ys)

-- `splice(index, 1)`
unfoldable pub splice {ℓ} : {A : Type ℓ} → ℕ → List A → List A
splice i [] = []
splice zero (y ∷ ys) = ys
splice (suc i) (y ∷ ys) = y ∷ splice i ys

module _ {A : Type 0} (eq : A → A → Bool) where
  -- The shape of `deleteClause` and `deleteParty`.
  unfoldable pub delete_entry : A → List A → List A
  unfolding index_of splice
  delete_entry x xs = elim (index_of eq x xs) [ none ↦ xs | some i ↦ splice i xs ]

  -- Whether `indexOf` finds an entry.
  abbrev pub is_listed : A → List A → Bool
  is_listed x xs = is_some (index_of eq x xs)
