-- ===== src/Server/Users.antt =====
-- The users of the server and the tokens that stand for them (src/main/java/controller/Users.java and
-- model/syncManager/UserSyncManagerImpl.java).
pub mod Laws
pub mod Subscribed
use gl_tomsxp.Common.{
  ◌==◌, ◌≡◌, ℕ, ◌+◌, String, Option, none, some, Bool, true, false, List, [], ◌∷◌, ◌++◌, ◌&&◌, not,
  length, chars, ltb, if◌then◌else◌,
}
use gl_tomsxp.Server.Authentifier.{Logins, Tokens, get_token, get_login, get_password, delete_token}

-- The stored fields of `User` that the methods read.
pub record User : Type 0 where
  pub id : String
  pub nick : String
  pub salt : String
  pub password_hash : String

-- `Application`: its authentifier, and the table of users in the order of a query.
pub record Application : Type 0 where
  pub tokens : Tokens
  pub users : List User

-- What a method answers: a token and a user id, `{"error": "true"}`, or nothing.
pub data Reply : Type 0 where
  accepted : String → String → Reply
  error : Reply
  null : Reply

-- `@Size(min = 3, max = 64)` on the nick, which `check` looks at before a commit.
abbrev pub is_valid : String → Bool
is_valid nick = let n = length (chars nick) in ltb 2 n && ltb n 65

-- The answer with a new token; the loop of `getToken` ends by assumption.
abbrev pub answer : Option (String × Tokens) → String → Application → Option (Application × Reply)
answer none id a = none
answer (some (t, tokens)) id a = some (record a { tokens = tokens }, accepted t id)

abbrev pub grant : List String → Logins → String → Application → Option (Application × Reply)
grant candidates l id a = answer (get_token candidates l a.tokens) id a

-- `logout`
unfoldable pub logout : Option String → Application → Application
logout token a = record a { tokens = delete_token token a.tokens }

-- The rest of `login` once the user has been looked for.
abbrev pub admit :
    Option User → List String → String → String → Application → Option (Application × Reply)
admit none candidates nick password a = some (a, error)
admit (some u) candidates nick password a =
    grant candidates (record { name = nick; password = password }) u.id a

-- `hash salt password` is the hash of the default hasher.
module _ (hash : String → String → String) where
  abbrev pub is_user : String → String → User → Bool
  is_user nick password u = u.nick == nick && u.password_hash == hash u.salt password

  -- `getUser`
  abbrev pub get_user : String → String → List User → Option User
  get_user nick password [] = none
  get_user nick password (u ∷ users) =
      let later = get_user nick password users in if is_user nick password u then some u else later

  -- `users.getUser(auth.getLogin(token), auth.getPassword(token))`: no nick equals null.
  abbrev pub find : Option String → Option String → List User → Option User
  find (some nick) (some password) users = get_user nick password users
  find _ _ users = none

  unfoldable pub current_user : Option String → Application → Option User
  current_user token a = find (get_login token a.tokens) (get_password token a.tokens) a.users

  -- `login`
  unfoldable pub login : List String → String → String → Application → Option (Application × Reply)
  login candidates nick password a =
      admit (get_user nick password a.users) candidates nick password a

  -- `subscribe`, with the id and the salt that are drawn; `commits` is what the database says. The
  -- answer does not depend on whether the user was stored.
  unfoldable pub subscribe :
      List String
      → String
      → String
      → Bool
      → String
      → String
      → Application
      → Option (Application × Reply)
  subscribe candidates id salt commits nick password a =
      let u : User = record {
        id = id;
        nick = nick;
        salt = salt;
        password_hash = hash salt password;
      } in
      let users : List User = if is_valid nick && commits then a.users ++ u ∷ [] else a.users in
      grant candidates (record { name = nick; password = password }) id (record a { users = users })

  -- The entity that was found gets a new salt and the hash of the new password.
  abbrev pub renew : String → String → String → String → List User → List User
  renew nick old salt new [] = []
  renew nick old salt new (u ∷ users) =
      let later = u ∷ renew nick old salt new users in
      if is_user nick old u
      then record u { salt = salt; password_hash = hash salt new } ∷ users
      else later

  -- The rest of `changePassword` once the user has been looked for: the token for the new password is
  -- given out before the database commits, and stays if it does not.
  abbrev pub exchange :
      Option User
      → List String
      → String
      → Bool
      → String
      → String
      → Application
      → Option (Application × Reply)
  exchange none candidates salt commits old new a = some (a, null)
  exchange (some u) candidates salt true old new a =
      grant candidates (record { name = u.nick; password = new }) u.id
        (record a { users = renew u.nick old salt new a.users })
  exchange (some u) candidates salt false old new a =
      elim (grant candidates (record { name = u.nick; password = new }) u.id a) [
        | none ↦ none
        | some (b, r) ↦ some (b, null)
      ]

  -- `changePassword`
  unfoldable pub change_password :
      List String
      → String
      → Bool
      → Option String
      → String
      → String
      → String
      → Application
      → Option (Application × Reply)
  change_password candidates salt commits token old new confirm a =
      if new == confirm
      then exchange (find (get_login token a.tokens) (some old) a.users) candidates salt commits old
          new a
      else some (a, error)

  -- The steps of the server on its users.
  pub data Step (a : Application) : Application → Type 0 where
    logs_in :
        {a' : Application} (candidates : List String) (nick password : String) (r : Reply)
        → login candidates nick password a ≡ some (a', r)
        → Step a a'
    logs_out : (token : Option String) → Step a (logout token a)
    subscribes :
        {a' : Application} (candidates : List String) (id salt : String) (commits : Bool)
        (nick password : String) (r : Reply)
        → subscribe candidates id salt commits nick password a ≡ some (a', r)
        → Step a a'
    changes_password :
        {a' : Application} (candidates : List String) (salt : String) (commits : Bool)
        (token : Option String) (old new confirm : String) (r : Reply)
        → change_password candidates salt commits token old new confirm a ≡ some (a', r)
        → Step a a'

  -- The runs all of whose steps are allowed.
  pub data Along (IsAllowed : (a b : Application) → Step a b → Type 0) (a : Application)
      : Application → Type 0 where
    here : Along IsAllowed a a
    next :
        {b c : Application}
        → Along IsAllowed a b
        → (step : Step b c) → IsAllowed b c step
        → Along IsAllowed a c
