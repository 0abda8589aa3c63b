-- ===== src/Server/Authentifier/Laws.antt =====
-- What the tokens that the server has given out stand for
-- (src/main/java/rest/impl/SimpleAuthentifier.java).
use gl_tomsxp.Common.{
  ◌≢◌, ap, ◌∙◌, eq_refl, subst, sym, eq_iff, Bool-cases, inl, inr, arith, ◌==◌, ◌≡◌, String, Option,
  none, some, true, false, List, [], ◌∷◌, is_some, if◌then◌else◌, refl,
}
use mathlib.Core.Option.{none-ne-some}
use gl_tomsxp.Server.Authentifier.{
  Logins, Tokens, lookup, remove, insert, get_token, delete_token, Event, issued, deleted, Run,
  start, issues, deletes,
}

-- What a token stands for, by what has happened: the credentials it was last given out for, unless it
-- has been deleted since.
abbrev pub holder : List Event → String → Option Logins
holder [] t = none
holder (issued k l ∷ es) t = let before = holder es t in if k == t then some l else before
holder (deleted none ∷ es) t = holder es t
holder (deleted (some k) ∷ es) t = let before = holder es t in if k == t then none else before

apart : (k j t : String) → (j == k) ≡ false → (k == t) ≡ true → (j == t) ≡ false
apart k j t e h = subst (λ x. (j == x) ≡ false) ((eq_iff k t).0 h) e

lookup-remove :
    (k t : String) (m : Tokens) → lookup t (remove k m) ≡ (if k == t then none else lookup t m)
lookup-remove k t [] = ground arith
lookup-remove k t ((j, l) ∷ m) = elim (Bool-cases (j == k)) [
  | inl e ↦ rw ((eq_iff j k).0 e, eq_refl k) (ground (arith, lookup-remove k t m))
  | inr e ↦ elim (Bool-cases (k == t)) [
    | inl h ↦ rw (e, h, apart k j t e h) (ground (arith, h, lookup-remove k t m))
    | inr h ↦ rw (e, h) (ground (arith, h, lookup-remove k t m))
  ]
]

-- What the loop gives: a token that was not a key, put into the map.
get_token-insert :
    (candidates : List String) (l : Logins) (m : Tokens) (t : String) (m' : Tokens)
    → get_token candidates l m ≡ some (t, m')
    → (lookup t m ≡ none) × (m' ≡ insert t l m)
unfolding get_token
get_token-insert [] l m t m' h = absurd (none-ne-some (t, m') h)
get_token-insert (k ∷ candidates) l m t m' h = elim (Bool-cases (is_some (lookup k m))) [
  | inl e ↦ get_token-insert candidates l m t m' (ground (arith, e, h))
  | inr e ↦ ground (arith, e, h)
]

lookup-insert :
    (k t : String) (l : Logins) (m : Tokens)
    → lookup t (insert k l m) ≡ (if k == t then some l else lookup t m)
lookup-insert k t l m = ground (arith, lookup-remove k t m)

-- After any sequence of calls of `getToken` and `deleteToken`, each key of the map has the credentials
-- that it was last given out for, if it has not been deleted since, and is no key otherwise.
pub Run-holder : {es : List Event} {m : Tokens} → Run es m → (t : String) → lookup t m ≡ holder es t
unfolding delete_token
Run-holder start t = refl
Run-holder (issues {es} {m} {m'} candidates k l r h) t =
    let (free, put) = get_token-insert candidates l m k m' h in
    ground (arith, put, lookup-insert k t l m, Run-holder r t)
Run-holder (deletes none r) t = Run-holder r t
Run-holder (deletes {es} {m} (some k) r) t = ground (arith, lookup-remove k t m, Run-holder r t)

-- A token that is given out is not held by anyone at that time.
pub Run-fresh :
    {es : List Event} {m : Tokens} {t : String} {l : Logins}
    → Run (issued t l ∷ es) m
    → holder es t ≡ none
Run-fresh (issues {es} {m} {m'} candidates k l r h) =
    sym (Run-holder r k) ∙ (get_token-insert candidates l m k m' h).0

-- A token that is given out stands for its credentials, and those that were given out before stand for
-- theirs.
pub get_token-lookup :
    (candidates : List String) (l : Logins) (m : Tokens) (t : String) (m' : Tokens)
    → get_token candidates l m ≡ some (t, m')
    → lookup t m' ≡ some l
get_token-lookup candidates l m t m' h =
    let (free, put) = get_token-insert candidates l m t m' h in
    ap (lookup t) put ∙ lookup-insert t t l m ∙ rw (eq_refl t) refl

pub get_token-keeps :
    (candidates : List String) (l : Logins) (m : Tokens) (t : String) (m' : Tokens) (k : String)
    (j : Logins)
    → get_token candidates l m ≡ some (t, m')
    → lookup k m ≡ some j
    → lookup k m' ≡ some j
get_token-keeps candidates l m t m' k j h held =
    let (free, put) = get_token-insert candidates l m t m' h in
    elim (Bool-cases (t == k)) [
      | inl e ↦ absurd (none-ne-some j (sym free ∙ ap (λ x. lookup x m) ((eq_iff t k).0 e) ∙ held))
      | inr e ↦ ap (lookup k) put ∙ lookup-insert t k l m ∙ rw e held
    ]

pub delete_token-keeps :
    (o : Option String) (m : Tokens) (k : String) (j : Logins)
    → o ≢ some k
    → lookup k m ≡ some j
    → lookup k (delete_token o m) ≡ some j
unfolding delete_token
delete_token-keeps none m k j other held = held
delete_token-keeps (some t) m k j other held = elim (Bool-cases (t == k)) [
  | inl e ↦ absurd (other (ap some ((eq_iff t k).0 e)))
  | inr e ↦ lookup-remove t k m ∙ rw e held
]
