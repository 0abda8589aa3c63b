-- ===== src/Results/Shown.antt =====
-- What a list of results shows if its order is forgotten (src/main/js/modules/search.js and
-- src/main/js/modules/messages.js): the set of the ids.
use mathlib.Core.Quot
use mathlib.Core.Quot.{Quot, Quot-set}
use gl_tomsxp.Common.{◌≡◌, String, Option, List, arith}
use gl_tomsxp.Results.{push_all}
use gl_tomsxp.Results.Laws.{has_id, has_id-push_all}

module _ {A : Type 0} (id : A → Option String) where
  abbrev pub SameIds : List A → List A → Type 0
  SameIds xs ys = (k : Option String) → has_id id k xs ≡ has_id id k ys

  abbrev pub Shown : Type 0
  Shown = Quot SameIds

  pub push_all-SameIds :
      (node : List (Option A)) (xs ys : List A)
      → SameIds xs ys
      → SameIds (push_all id node xs) (push_all id node ys)
  push_all-SameIds node xs ys h k =
      ground (arith, has_id-push_all id k node xs, has_id-push_all id k node ys, h k)

  -- A node arrives.
  unfoldable pub receive : List (Option A) → Shown → Shown
  receive node =
      Quot.lift Quot-set (λ xs. Quot.mk (push_all id node xs))
        (λ xs ys h. Quot.sound (push_all-SameIds node xs ys h))
