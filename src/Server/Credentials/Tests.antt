-- ===== src/Server/Credentials/Tests.antt =====
-- A serializer of forms as `$.param` is documented, to which the theorems on
-- src/main/java/controller/Users.java are applied.
use mathlib.Core.Bool.{true≢false}
use gl_tomsxp.Common.{
  sym, eq_iff, ◌≡◌, refl, ap, String, Char, Option, none, some, false, List, [], ◌∷◌, ◌++◌,
  if◌then◌else◌, chars, Bool-cases, inl, inr, arith, ◌==◌, map,
}
use gl_tomsxp.Client.{Json, missing, text, texts, json}
use gl_tomsxp.Client.Query.{ampersand, equals, Lacks, Lacks-append}
use gl_tomsxp.Server.Credentials.{read_credentials}
use gl_tomsxp.Server.Credentials.Laws.{Escape, is_nil, Writes, pair, read_credentials-param}
use gl_tomsxp.Users.{credentials}

-- The two signs become "%26" and "%3D".
abbrev escape_char : Char → List Char
escape_char c =
    if ampersand c then "%" ∷ "2" ∷ "6" ∷ [] else if equals c then "%" ∷ "3" ∷ "D" ∷ [] else c ∷ []

abbrev escape_chars : List Char → List Char
escape_chars [] = []
escape_chars (c ∷ s) = escape_char c ++ escape_chars s

escape_char-ampersand : (c : Char) → Lacks ampersand (escape_char c)
escape_char-ampersand c = elim (Bool-cases (ampersand c)) [
  | inl e ↦ rw e refl
  | inr e ↦ elim (Bool-cases (equals c)) [
    | inl h ↦ rw (e, h) refl
    | inr h ↦ rw (e, h) (ground (arith, e))
  ]
]

escape_char-equals : (c : Char) → Lacks equals (escape_char c)
escape_char-equals c = elim (Bool-cases (ampersand c)) [
  | inl e ↦ rw e refl
  | inr e ↦ elim (Bool-cases (equals c)) [
    | inl h ↦ rw (e, h) refl
    | inr h ↦ rw (e, h) (ground (arith, h))
  ]
]

escape_chars-ampersand : (s : List Char) → Lacks ampersand (escape_chars s)
escape_chars-ampersand [] = refl
escape_chars-ampersand (c ∷ s) =
    Lacks-append ampersand (escape_char c) (escape_chars s) (escape_char-ampersand c)
      (escape_chars-ampersand s)

escape_chars-equals : (s : List Char) → Lacks equals (escape_chars s)
escape_chars-equals [] = refl
escape_chars-equals (c ∷ s) =
    Lacks-append equals (escape_char c) (escape_chars s) (escape_char-equals c)
      (escape_chars-equals s)

escape_chars-nil : (c : Char) (s : List Char) → is_nil (escape_chars (c ∷ s)) ≡ false
escape_chars-nil c s = elim (Bool-cases (ampersand c)) [
  | inl e ↦ rw e refl
  | inr e ↦ elim (Bool-cases (equals c)) [ inl h ↦ rw (e, h) refl | inr h ↦ rw (e, h) refl ]
]

escape_blank : (t : String) → is_nil (escape_chars (chars t)) ≡ (t == "")
escape_blank String.[] = refl
escape_blank (String.◌∷◌ c s) = elim (Bool-cases (String.◌∷◌ c s == "")) [
  | inl e ↦
      absurd (true≢false (sym (ap (λ t. is_nil (chars t)) ((eq_iff (String.◌∷◌ c s) "").0 e))))
  | inr e ↦ rw e (escape_chars-nil c (chars s))
]

abbrev escaping : Escape
escaping = record {
  escape = λ t. escape_chars (chars t);
  ampersands = λ t. escape_chars-ampersand (chars t);
  equal_signs = λ t. escape_chars-equals (chars t);
  blank = escape_blank;
}

abbrev value : Json → List Char
value missing = []
value (text t) = escape_chars (chars t)
value (texts ts) = []

abbrev param : List (String × Json) → List Char
param [] = []
param ((name, v) ∷ []) = chars name ++ "=" ∷ value v
param ((name, v) ∷ f ∷ fs) = (chars name ++ "=" ∷ value v) ++ "&" ∷ param (f ∷ fs)

param-one : (f : String × Option String) → param ((f.0, json f.1) ∷ []) ≡ pair escaping f
param-one (name, none) = refl
param-one (name, some t) = refl

param-more :
    (f g : String × Option String) (fs : List (String × Option String))
    → param ((f.0, json f.1) ∷ (g.0, json g.1) ∷ map (λ h. (h.0, json h.1)) fs)
      ≡ pair escaping f ++ "&" ∷ param ((g.0, json g.1) ∷ map (λ h. (h.0, json h.1)) fs)
param-more (name, none) g fs = refl
param-more (name, some t) g fs = refl

param-Writes : Writes escaping param
param-Writes = (param-one, param-more)

read_credentials-param_example :
    read_credentials (param (credentials (some "a&b") (some "c=d")))
    ≡ some (chars "a%26b", chars "c%3Dd")
read_credentials-param_example =
    read_credentials-param escaping param param-Writes (some "a&b") (some "c=d")
