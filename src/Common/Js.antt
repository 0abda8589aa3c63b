-- ===== src/Common/Js.antt =====
-- The parts of JavaScript that the pages lean on: comparison with `==` where a value may be
-- missing, arrays of texts, and code that may throw.
use gl_tomsxp.Common.Tests.{if◌then◌else◌}
use Prim.Native.String.{String}
use mathlib.Core.Path.{◌≡◌}
use mathlib.Core.Bool.{Bool, true, false}
use mathlib.Core.Option.{Option, none, some}
use mathlib.Core.Logic.{◌↔◌}
use native.Mathlib.Omega.{arith}
use text.Mathlib.Text.{◌==◌}
use text.Mathlib.TextEquality.{eq_iff}

-- `a == b` where each side is a text, null or undefined (the last two are one value here).
abbrev pub loose_eq : Option String → Option String → Bool
loose_eq none none = true
loose_eq none (some t) = false
loose_eq (some s) none = false
loose_eq (some s) (some t) = s == t

pub loose_eq_iff : (a b : Option String) → (loose_eq a b ≡ true) ↔ (a ≡ b)
loose_eq_iff none none = ground arith
loose_eq_iff none (some t) = ground arith
loose_eq_iff (some s) none = ground arith
loose_eq_iff (some s) (some t) = ground (arith, eq_iff s t)

-- A text counts as true if it is there and not empty.
abbrev pub truthy : Option String → Bool
truthy none = false
truthy (some s) = if s == "" then false else true

-- A text that is missing prints as "undefined".
abbrev pub shown : Option String → String
shown none = "undefined"
shown (some s) = s

-- The state at the end of a handler, or at the point where it threw.
pub data Outcome (S : Type 0) : Type 0 where
  done : S → Outcome S
  threw : S → Outcome S

abbrev pub state : {S : Type 0} → Outcome S → S
state (done s) = s
state (threw s) = s

infixl 5 ◌>>=◌
abbrev pub ◌>>=◌ : {S : Type 0} → Outcome S → (S → Outcome S) → Outcome S
done s >>= f = f s
threw s >>= f = threw s
