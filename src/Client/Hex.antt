-- ===== src/Client/Hex.antt =====
-- The filter 'hex' of src/main/js/modules/app.js, which displays a public key: `Number` rounds a
-- whole number to the nearest double, half to even, and `toString(16)` writes it by its digits.
pub mod Laws
use gl_tomsxp.Common.{
  ℕ, zero, suc, ◌+◌, ◌*◌, ◌/◌, ◌%◌, ◌^◌, String, List, [], ◌∷◌, map, ltb, nat_eq, if◌then◌else◌,
  join,
}

-- The number of bits to drop until 53 are left; a round halves the number.
unfoldable pub excess : ℕ → ℕ → ℕ
excess zero n = 0
excess (suc f) n = let rest = suc (excess f (n / 2)) in if ltb n (2 ^ 53) then 0 else rest

-- `q` units of `e` bits and the rest `r`, rounded to whole units.
abbrev pub rounded : ℕ → ℕ → ℕ → ℕ
rounded unit q r = if ltb unit (2 * r) then q + 1 else if nat_eq (2 * r) unit then q + q % 2 else q

-- `Number(input)`, before the overflow to Infinity.
unfoldable pub number : ℕ → ℕ
unfolding excess
number n = let unit = 2 ^ excess n n in rounded unit (n / unit) (n % unit) * unit

-- The digits to the base 16, the first one first.
unfoldable pub digits : ℕ → ℕ → List ℕ → List ℕ
digits zero n out = n ∷ out
digits (suc f) n out =
    let rest = digits f (n / 16) (n % 16 ∷ out) in if ltb n 16 then n ∷ out else rest

abbrev pub digit : ℕ → String
digit d =
    if ltb d 8
    then (if ltb d 4
        then (if ltb d 2
            then (if nat_eq d 0 then "0" else "1")
            else (if nat_eq d 2 then "2" else "3"))
        else (if ltb d 6
            then (if nat_eq d 4 then "4" else "5")
            else (if nat_eq d 6 then "6" else "7")))
    else (if ltb d 12
        then (if ltb d 10
            then (if nat_eq d 8 then "8" else "9")
            else (if nat_eq d 10 then "a" else "b"))
        else (if ltb d 14
            then (if nat_eq d 12 then "c" else "d")
            else (if nat_eq d 14 then "e" else "f")))

-- `toString(16)`, of a number or of Infinity.
unfoldable pub text_of : ℕ → String
unfolding digits
text_of v = if ltb v (2 ^ 1024) then join (map digit (digits v v [])) else "Infinity"

-- `Number(input).toString(16)`
unfoldable pub hex : ℕ → String
hex n = text_of (number n)
