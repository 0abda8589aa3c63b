-- ===== src/Common/Text.antt =====
-- Texts: concatenation as a function, and facts that the comparison of texts needs.
use Prim.Native.String
use Prim.Native.String.{String}
use Prim.Native.Char.{Char}
use text.Mathlib.TextLemmas.{nil-append, cons-append}
use mathlib.Core.Path.{◌≡◌, refl, ap}
use mathlib.Core.List.{List, [], ◌∷◌, ◌++◌}

-- `a + b` on two texts
abbrev pub concat : String → String → String
concat a b = String.◌++◌ a b

-- `a + b + …` on texts
abbrev pub join : List String → String
join [] = ""
join (s ∷ []) = s
join (s ∷ t ∷ r) = concat s (join (t ∷ r))

-- A text as the list of its characters, and back.
abbrev pub chars : String → List Char
chars String.[] = []
chars (String.◌∷◌ c s) = c ∷ chars s

abbrev pub of_chars : List Char → String
of_chars [] = ""
of_chars (c ∷ s) = String.◌∷◌ c (of_chars s)

pub chars-concat : (s t : String) → chars (concat s t) ≡ chars s ++ chars t
chars-concat String.[] t = rw nil-append
chars-concat (String.◌∷◌ c s) t = rw cons-append (ap (c ∷◌) (chars-concat s t))

pub of_chars-chars : (s : String) → of_chars (chars s) ≡ s
of_chars-chars String.[] = refl
of_chars-chars (String.◌∷◌ c s) = ap (String.◌∷◌ c) (of_chars-chars s)
