-- ===== src/Contracts/Party.antt =====
-- The text by which src/main/js/modules/contracts.js shows a party, "name - id", and the id that
-- `submit` cuts out of it with `split(" - ")[1]`.
pub mod Laws
use gl_tomsxp.Common.{
  chars, of_chars, ℕ, Char, code, String, Option, none, some, Bool, List, [], ◌∷◌, ◌++◌, ◌&&◌,
  nat_eq, join, shown, if◌then◌else◌,
}
use Prim.Native.String

-- The three characters " - ".
abbrev pub is_sep : Char → Char → Char → Bool
is_sep c d e = nat_eq (code c) 32 && nat_eq (code d) 45 && nat_eq (code e) 32

-- `split(" - ")`, from left to right: `piece` is the piece read so far.
unfoldable pub split_from : List Char → List Char → List (List Char)
split_from piece [] = piece ∷ []
split_from piece (c ∷ []) = (piece ++ c ∷ []) ∷ []
split_from piece (c ∷ d ∷ []) = (piece ++ c ∷ d ∷ []) ∷ []
split_from piece (c ∷ d ∷ e ∷ s) =
    let cut = piece ∷ split_from [] s in
    let longer = split_from (piece ++ c ∷ []) (d ∷ e ∷ s) in if is_sep c d e then cut else longer

abbrev second : List (List Char) → Option String
second [] = none
second (piece ∷ []) = none
second (piece ∷ next ∷ rest) = some (of_chars next)

-- `names.split(" - ")[1]`
unfoldable pub party_id : String → Option String
unfolding split_from
party_id label = second (split_from [] (chars label))

-- An entry of `contract.partiesNames`.
pub record PartyName : Type 0 where
  pub key : String
  pub value : String

-- `names["value"] + " - " + names["key"]`
unfoldable pub party_label : PartyName → String
party_label p = join (p.value ∷ " - " ∷ p.key ∷ [])
