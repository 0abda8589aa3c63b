-- ===== src/Server/Authentifier.antt =====
-- The tokens that the server has given out (src/main/java/rest/impl/SimpleAuthentifier.java).
pub mod Laws
use gl_tomsxp.Common.{
  ◌==◌, ◌≡◌, String, Option, none, some, Bool, true, false, List, [], ◌∷◌, is_some, if◌then◌else◌,
}

-- `Logins`
pub record Logins : Type 0 where
  pub name : String
  pub password : String

-- `HashMap`, by the association of the keys that were put, the newest first.
abbrev pub Tokens : Type 0
Tokens = List (String × Logins)

abbrev pub lookup : String → Tokens → Option Logins
lookup t [] = none
lookup t ((k, l) ∷ m) = let later = lookup t m in if k == t then some l else later

-- `HashMap.remove`
abbrev pub remove : String → Tokens → Tokens
remove t [] = []
remove t ((k, l) ∷ m) = let rest = remove t m in if k == t then rest else (k, l) ∷ rest

-- `HashMap.put`
abbrev pub insert : String → Logins → Tokens → Tokens
insert t l m = (t, l) ∷ remove t m

-- `getToken`: `candidates` are the texts that the random numbers give, in the order they are drawn; the
-- loop draws until one is not a key.
unfoldable pub get_token : List String → Logins → Tokens → Option (String × Tokens)
get_token [] l m = none
get_token (t ∷ candidates) l m =
    let later = get_token candidates l m in
    if is_some (lookup t m) then later else some (t, insert t l m)

-- `getLogin` and `getPassword`: null where the token is null or not a key.
unfoldable pub get_login : Option String → Tokens → Option String
get_login none m = none
get_login (some t) m = elim (lookup t m) [ none ↦ none | some l ↦ some l.name ]

unfoldable pub get_password : Option String → Tokens → Option String
get_password none m = none
get_password (some t) m = elim (lookup t m) [ none ↦ none | some l ↦ some l.password ]

-- `deleteToken`: null is never a key.
unfoldable pub delete_token : Option String → Tokens → Tokens
delete_token none m = m
delete_token (some t) m = remove t m

-- What happens to the tokens: one is given out, or one is deleted.
pub data Event : Type 0 where
  issued : String → Logins → Event
  deleted : Option String → Event

-- The tokens after some events, the newest first.
pub data Run : List Event → Tokens → Type 0 where
  start : Run [] []
  issues :
      {es : List Event} {m m' : Tokens} (candidates : List String) (t : String) (l : Logins)
      → Run es m
      → get_token candidates l m ≡ some (t, m')
      → Run (issued t l ∷ es) m'
  deletes :
      {es : List Event} {m : Tokens} (t : Option String)
      → Run es m
      → Run (deleted t ∷ es) (delete_token t m)
