-- ===== src/Client/Hex/Laws.antt =====
-- Which keys the filter 'hex' displays as they are (src/main/js/modules/app.js).
use gl_tomsxp.Common.{
  sym, ◌≢◌, map, join, All, ◌∙◌, ◌≡◌, refl, ℕ, zero, suc, ◌+◌, ◌*◌, ◌/◌, ◌%◌, ◌^◌, ◌<◌, ◌≤◌, List,
  [], ◌∷◌, ltb, arith, Bool-cases, inl, inr, ap,
}
use gl_tomsxp.Client.Hex.{text_of, digit, map, join, hex, excess, number, digits}

-- The number that the digits stand for, after `v`.
abbrev pub value : ℕ → List ℕ → ℕ
value v [] = v
value v (d ∷ ds) = value (v * 16 + d) ds

value-digits : (f n : ℕ) (out : List ℕ) → n ≤ f → value 0 (digits f n out) ≡ value n out
unfolding digits
value-digits zero n out h = ap (λ v. value v out) (omega arith)
value-digits (suc f) n out h = elim (Bool-cases (ltb n 16)) [
  | inl e ↦ rw e (ap (λ v. value v out) (omega arith))
  | inr e ↦
      rw e (
        value-digits f (n / 16) (n % 16 ∷ out) (ground arith) ∙ ap (λ v. value v out) (omega arith))
]

digits-All : (f n : ℕ) (out : List ℕ) → n ≤ f → All (◌< 16) out → All (◌< 16) (digits f n out)
unfolding digits
digits-All zero n out h k = (omega arith, k)
digits-All (suc f) n out h k = elim (Bool-cases (ltb n 16)) [
  | inl e ↦ rw e (ground arith, k)
  | inr e ↦ rw e (digits-All f (n / 16) (n % 16 ∷ out) (ground arith) (omega arith, k))
]

excess-zero : (f n : ℕ) → n < 2 ^ 53 → excess f n ≡ 0
unfolding excess
excess-zero zero n h = refl
excess-zero (suc f) n h = ground arith

number_exact : (n : ℕ) → n < 2 ^ 53 → number n ≡ n
unfolding number
number_exact n h = rw (excess-zero n n h) (ground arith)

-- A number of 55 bits loses two of them.
excess-two : (f n : ℕ) → 2 ^ 54 ≤ n → n < 2 ^ 55 → excess (suc (suc f)) n ≡ 2
unfolding excess
excess-two f n h k = ground (arith, excess-zero f (n / 2 / 2))

excess_long : (f n : ℕ) → 2 ≤ f → 2 ^ 54 ≤ n → n < 2 ^ 55 → excess f n ≡ 2
excess_long zero n g h k = absurd (omega arith)
excess_long (suc zero) n g h k = absurd (omega arith)
excess_long (suc (suc f)) n g h k = excess-two f n h k

-- The last two bits of a number of 55 bits are rounded away.
number_long : (q r : ℕ) → 2 ^ 52 ≤ q → q < 2 ^ 53 → r < 2 → number (4 * q + r) ≡ 4 * q
unfolding number
number_long q r h k s =
    rw (excess_long (4 * q + r) (4 * q + r) (omega arith) (omega arith) (omega arith))
      (ground arith)

-- A key below 2 ^ 53 is displayed by digits to the base 16 that stand for it, and no information is
-- lost.
pub hex_exact :
    (n : ℕ)
    → n < 2 ^ 53
    → (ds : List ℕ) × (hex n ≡ join (map digit ds)) × (value 0 ds ≡ n) × All (◌< 16) ds
unfolding hex text_of
hex_exact n h = (
  digits n n [],
  rw (number_exact n h) (ground arith),
  value-digits n n [] (omega arith),
  digits-All n n [] (omega arith) tt,
)

-- A key of 55 bits is displayed as if its last two bits were 0, so that keys one apart look alike.
pub hex_collides :
    (q : ℕ) → 2 ^ 52 ≤ q → q < 2 ^ 53 → (hex (4 * q + 1) ≡ hex (4 * q)) × (4 * q + 1 ≢ 4 * q)
unfolding hex
hex_collides q h k = (
  ap text_of (
      number_long q 1 h k (omega arith)
      ∙ sym (ap number (omega arith) ∙ number_long q 0 h k (omega arith))),
  omega arith,
)
