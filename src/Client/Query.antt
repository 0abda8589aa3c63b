-- ===== src/Client/Query.antt =====
-- The query of a URL, as a server reads it: what src/main/js/modules/search.js and messages.js, which
-- put a text behind the `=` of a parameter as it was typed, are held against.
use gl_tomsxp.Common.{
  any, arith, any-append, sym, append_assoc, chars-concat, concat, ◌≡◌, refl, ap, ◌∙◌, Char, code,
  String, Option, none, some, Bool, true, false, List, [], ◌∷◌, ◌++◌, chars, of_chars, nat_eq,
  if◌then◌else◌, ◌||◌, ◌==◌, Bool-cases, inl, inr, eq_refl, of_chars-chars, append-nil,
}

-- What stands before the first character of a kind, and what stands behind it.
abbrev pub up_to : (Char → Bool) → List Char → List Char
up_to p [] = []
up_to p (c ∷ s) = let rest = c ∷ up_to p s in if p c then [] else rest

abbrev pub behind : (Char → Bool) → List Char → List Char
behind p [] = []
behind p (c ∷ s) = let rest = behind p s in if p c then s else rest

abbrev prepend : Char → List (List Char) → List (List Char)
prepend c [] = (c ∷ []) ∷ []
prepend c (piece ∷ pieces) = (c ∷ piece) ∷ pieces

-- The text cut at each character of the kind.
abbrev pub pieces : (Char → Bool) → List Char → List (List Char)
pieces p [] = [] ∷ []
pieces p (c ∷ s) = let rest = pieces p s in if p c then [] ∷ rest else prepend c rest

abbrev pub hash : Char → Bool
hash c = nat_eq (code c) 35

abbrev pub ampersand : Char → Bool
ampersand c = nat_eq (code c) 38

abbrev pub equals : Char → Bool
equals c = nat_eq (code c) 61

abbrev pub question : Char → Bool
question c = nat_eq (code c) 63

-- The first parameter of that name.
abbrev pub parameter : String → List (List Char) → Option (List Char)
parameter name [] = none
parameter name (piece ∷ rest) =
    let later = parameter name rest in
    if of_chars (up_to equals piece) == name then some (behind equals piece) else later

-- The value of a parameter in a URL, before its escapes are resolved.
unfoldable pub value : String → List Char → Option (List Char)
value name url = parameter name (pieces ampersand (behind question (up_to hash url)))

-- No character of the kind stands in the text.
abbrev pub Lacks : (Char → Bool) → List Char → Type 0
Lacks p s = any p s ≡ false

pub Lacks-cons :
    (p : Char → Bool) (c : Char) (s : List Char) → Lacks p (c ∷ s) → (p c ≡ false) × Lacks p s
Lacks-cons p c s h = ground arith

pub Lacks-append : (p : Char → Bool) (s t : List Char) → Lacks p s → Lacks p t → Lacks p (s ++ t)
Lacks-append p s t h k = rw (any-append p s t) (ground arith)

up_to-append : (p : Char → Bool) (s t : List Char) → Lacks p s → up_to p (s ++ t) ≡ s ++ up_to p t
up_to-append p [] t h = refl
up_to-append p (c ∷ s) t h =
    let (other, rest) = Lacks-cons p c s h in rw other (ap (c ∷◌) (up_to-append p s t rest))

behind-append :
    (p : Char → Bool) (s : List Char) (c : Char) (t : List Char)
    → Lacks p s
    → p c ≡ true
    → behind p (s ++ c ∷ t) ≡ t
behind-append p [] c t h k = rw k refl
behind-append p (d ∷ s) c t h k =
    let (other, rest) = Lacks-cons p d s h in rw other (behind-append p s c t rest k)

up_to-up_to : (p q : Char → Bool) (s : List Char) → up_to p (up_to q s) ≡ up_to (λ c. q c || p c) s
up_to-up_to p q [] = refl
up_to-up_to p q (c ∷ s) = elim (Bool-cases (q c)) [
  | inl e ↦ rw e refl
  | inr e ↦ rw e (elim (Bool-cases (p c)) [
    | inl e' ↦ rw e' refl
    | inr e' ↦ rw e' (ap (c ∷◌) (up_to-up_to p q s))
  ])
]

pieces-cons :
    (p : Char → Bool) (s : List Char) → (rest : List (List Char)) × (pieces p s ≡ up_to p s ∷ rest)
pieces-cons p [] = ([], refl)
pieces-cons p (c ∷ s) =
    let (rest, e) = pieces-cons p s in
    elim (Bool-cases (p c)) [ inl h ↦ (pieces p s, rw h refl) | inr h ↦ (rest, rw (h, e) refl) ]

-- The parameter's name is a word.
abbrev pub IsWord : List Char → Type 0
IsWord s = Lacks hash s × Lacks ampersand s × Lacks equals s

-- The query begins behind the base of a URL, and ends with it or at the first `#`.
query-append :
    (base query : List Char)
    → Lacks hash base
    → Lacks question base
    → behind question (up_to hash (base ++ "?" ∷ query)) ≡ up_to hash query
query-append base query h h' =
    ap (behind question) (up_to-append hash base ("?" ∷ query) h)
    ∙ behind-append question base "?" (up_to hash query) h' refl

-- If a text stands behind the name and the equals sign of the first parameter of a URL, then the value
-- of the parameter is the text up to its first `#` or `&`.
pub value-append :
    (base : List Char) (name : String) (t : List Char)
    → Lacks hash base
    → Lacks question base
    → IsWord (chars name)
    → value name (base ++ "?" ∷ (chars name ++ "=" ∷ t))
      ≡ some (up_to (λ c. hash c || ampersand c) t)
unfolding value
value-append base name t h h' (w, w', w'') =
    let n = chars name in
    let (rest, first) = pieces-cons ampersand (n ++ "=" ∷ up_to hash t) in
    rw
      (
        query-append base (n ++ "=" ∷ t) h h',
        up_to-append hash n ("=" ∷ t) w,
        first,
        up_to-append ampersand n ("=" ∷ up_to hash t) w',
        up_to-append equals n ("=" ∷ up_to ampersand (up_to hash t)) w'',
        append-nil n,
        of_chars-chars name,
        eq_refl name,
        behind-append equals n "=" (up_to ampersand (up_to hash t)) w'' refl,
        up_to-up_to ampersand hash t,
      )
      refl

-- So for a text behind a route, with the name and the equals sign of its parameter, at a server.
pub value-concat :
    (server path name route text : String)
    → chars route ≡ (chars path ++ "?" ∷ chars name) ++ "=" ∷ []
    → Lacks hash (chars server)
    → Lacks question (chars server)
    → Lacks hash (chars path)
    → Lacks question (chars path)
    → IsWord (chars name)
    → value name (chars (concat server (concat route text)))
      ≡ some (up_to (λ c. hash c || ampersand c) (chars text))
value-concat server path name route text e h h' k k' w =
    rw
      (
        chars-concat server (concat route text),
        chars-concat route text,
        e,
        append_assoc (chars path ++ "?" ∷ chars name) ("=" ∷ []) (chars text),
        append_assoc (chars path) ("?" ∷ chars name) ("=" ∷ chars text),
        sym (append_assoc (chars server) (chars path) ("?" ∷ (chars name ++ "=" ∷ chars text))),
      )
      (value-append (chars server ++ chars path) name (chars text)
        (Lacks-append hash (chars server) (chars path) h k)
        (Lacks-append question (chars server) (chars path) h' k') w)
