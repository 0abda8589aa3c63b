-- ===== src/Results.antt =====
-- The list of results that a stream fills, as src/main/js/modules/search.js and
-- src/main/js/modules/messages.js both write it, over objects that have an `id`.
pub mod Laws
pub mod Shown
use gl_tomsxp.Common.{
  String, Option, none, some, Bool, true, false, List, [], ◌∷◌, ◌++◌, ◌||◌, any, loose_eq,
  if◌then◌else◌,
}

module _ {A : Type 0} (id : A → Option String) where
  -- The loop "check if not already there".
  abbrev pub listed : A → List A → Bool
  listed x results = any (λ r. loose_eq (id r) (id x)) results

  unfoldable pub push_result : Option A → List A → List A
  push_result none results = results
  push_result (some x) results = if listed x results then results else results ++ x ∷ []

  -- The loop over the objects of a node.
  unfoldable pub push_all : List (Option A) → List A → List A
  unfolding push_result
  push_all [] results = results
  push_all (x ∷ node) results = push_all node (push_result x results)
