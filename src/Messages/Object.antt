-- ===== src/Messages/Object.antt =====
-- A plain object of JavaScript as src/main/js/modules/messages.js uses `tmp`: a text is stored under
-- each key, and `for … in` goes through the keys, those that are array indices first.
pub mod Laws
pub mod Order
use gl_tomsxp.Common.{
  ℕ, zero, suc, ◌+◌, ◌-◌, ltb, nat_eq, Char, code, String, Option, none, some, Bool, true, false,
  List, [], ◌∷◌, ◌++◌, ◌&&◌, not, ◌==◌, is_some, if◌then◌else◌,
}
use Prim.Native.Nat.{◌*◌}
use mathlib.Core.Option

abbrev pub Object : Type 0
Object = List (String × Option String)

-- The assignment to an existing key leaves its place.
pub write : String → Option String → Object → Object
write key v [] = (key, v) ∷ []
write key v ((k, w) ∷ o) = if k == key then (k, v) ∷ o else (k, w) ∷ write key v o

-- `tmp[key] = v`: what is stored under "__proto__" makes no key, since no text is a prototype.
unfoldable pub put : String → Option String → Object → Object
unfolding write
put key v o = if key == "__proto__" then o else write key v o

-- The value of a numeral in base ten, with `n` for the digits before.
decimal : ℕ → String → Option ℕ
decimal n String.[] = some n
decimal n (String.◌∷◌ c s) =
    if ltb (code c) 48
    then none
    else if ltb 57 (code c)
    then none
    else decimal (n * 10 + (code c - 48)) s

-- The array index that a key spells: no sign, no leading zero, and below 2 ^ 32 - 1.
unfoldable pub array_index : String → Option ℕ
unfolding decimal
array_index String.[] = none
array_index (String.◌∷◌ c s) =
    if nat_eq (code c) 48 && not (s == "") then none else elim (decimal 0 (String.◌∷◌ c s)) [
      | none ↦ none
      | some n ↦ if ltb n 4294967295 then some n else none
    ]

abbrev same : Bool → Bool → Bool
same true b = b
same false b = not b

-- The entries whose keys are indices, or are not.
abbrev pick : Bool → Object → Object
pick indexed [] = []
pick indexed ((k, v) ∷ o) =
    if same indexed (is_some (array_index k)) then (k, v) ∷ pick indexed o else pick indexed o

-- Whether the index of the first key is below that of the second.
pub before : String → String → Bool
before j k = elim (array_index j) [
  | none ↦ false
  | some m ↦ elim (array_index k) [ none ↦ false | some n ↦ ltb m n ]
]

pub insert : String → Option String → Object → Object
unfolding before
insert key v [] = (key, v) ∷ []
insert key v ((k, w) ∷ o) = if before k key then (k, w) ∷ insert key v o else (key, v) ∷ (k, w) ∷ o

pub sort : Object → Object
unfolding insert
sort [] = []
sort ((k, v) ∷ o) = insert k v (sort o)

-- The entries in the order of `for … in`.
unfoldable pub entries : Object → Object
unfolding sort
entries o = sort (pick true o) ++ pick false o
