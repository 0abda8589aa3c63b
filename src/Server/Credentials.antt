-- ===== src/Server/Credentials.antt =====
-- How the server reads the fields of a login, a subscription and a change of the password
-- (src/main/java/controller/Users.java): by their position.
pub mod Laws
mod Tests
use gl_tomsxp.Common.{
  ℕ, String, Char, Option, none, some, Bool, List, [], ◌∷◌, any, get_elem?, if◌then◌else◌, of_chars,
}
use gl_tomsxp.Client.Query.{pieces, ampersand, equals}

-- `String.split` of Java leaves out the empty texts at the end, unless nothing is cut.
abbrev pub trim : List (List Char) → List (List Char)
trim [] = []
trim ([] ∷ rest) = elim (trim rest) [ [] ↦ [] | t ∷ more ↦ [] ∷ t ∷ more ]
trim ((c ∷ s) ∷ rest) = (c ∷ s) ∷ trim rest

abbrev pub split : (Char → Bool) → List Char → List (List Char)
split p s = if any p s then trim (pieces p s) else s ∷ []

-- `s.split("=")[1]`
abbrev pub behind_equals : List Char → Option (List Char)
behind_equals s = get_elem? (split equals s) 1

-- `credentials[i].split("=")[1]`; where an index is out of bounds, it throws.
abbrev pub field : ℕ → List (List Char) → Option (List Char)
field i fields = elim (get_elem? fields i) [ none ↦ none | some s ↦ behind_equals s ]

-- Two readings one after the other; one that throws ends the method.
abbrev both {ℓ κ} : {A : Type ℓ} {B : Type κ} → Option A → Option B → Option (A × B)
both none r = none
both (some a) none = none
both (some a) (some b) = some (a, b)

-- The name and the password that `login` and `subscribe` read, in this order.
unfoldable pub read_credentials : List Char → Option (List Char × List Char)
read_credentials body = let fields = split ampersand body in both (field 0 fields) (field 1 fields)

-- The three passwords that `changePassword` reads.
unfoldable pub read_passwords : List Char → Option (List Char × (List Char × List Char))
read_passwords body =
    let fields = split ampersand body in
    both (field 0 fields) (both (field 1 fields) (field 2 fields))
