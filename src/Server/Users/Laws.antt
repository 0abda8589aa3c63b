-- ===== src/Server/Users/Laws.antt =====
-- For whom the tokens of the server stand (src/main/java/controller/Users.java).
use gl_tomsxp.Common.{
  subst, sym, ap, ◌∙◌, refl, arith, ◌≢◌, ◌≡◌, String, Option, none, some, Bool, true, false, List,
  [], ◌∷◌, ◌++◌, ◌&&◌, if◌then◌else◌,
}
use mathlib.Core.Option.{none-ne-some, some-injective}
use gl_tomsxp.Server.Authentifier.{Logins, Tokens, lookup, get_token, get_login, get_password}
use gl_tomsxp.Server.Authentifier.Laws.{get_token-keeps, delete_token-keeps}
use gl_tomsxp.Server.Users.{
  User, Application, Reply, accepted, is_valid, get_user, find, current_user, answer, admit, grant,
  login, logout, subscribe, Step, logs_in, logs_out, subscribes, changes_password, Along, here,
  next,
}

-- What is answered is a new token, and nothing but the tokens changes.
pub answer-some :
    (o : Option (String × Tokens)) (id : String) (a a' : Application) (r : Reply)
    → answer o id a ≡ some (a', r)
    → (t : String) × (m : Tokens) × (o ≡ some (t, m))
      × (a' ≡ record a { tokens = m })
      × (r ≡ accepted t id)
answer-some none id a a' r h = absurd (none-ne-some (a', r) h)
answer-some (some (t, m)) id a a' r h =
    let e = some-injective _ _ h in (t, m, refl, sym (ap (λ x. x.0) e), sym (ap (λ x. x.1) e))

module _ (hash : String → String → String) where
  -- The user that some credentials find.
  abbrev pub owner : Option Logins → List User → Option User
  owner none users = none
  owner (some l) users = get_user hash l.name l.password users

  pub current_user-owner :
      (t : String) (a : Application)
      → current_user hash (some t) a ≡ owner (lookup t a.tokens) a.users
  unfolding current_user get_login get_password
  current_user-owner t a = found (lookup t a.tokens)
    where
      found :
          (o : Option Logins)
          → find hash
              (elim o [ none ↦ none | some l ↦ some l.name ])
              (elim o [ none ↦ none | some l ↦ some l.password ])
              a.users
            ≡ owner o a.users
      found none = refl
      found (some l) = refl

  -- The token is a key, and the user is the one that its credentials find.
  abbrev pub Stands : String → User → Application → Type 0
  Stands t u a =
      (l : Logins) × (lookup t a.tokens ≡ some l)
      × (get_user hash l.name l.password a.users ≡ some u)

  Stands-current_user :
      (t : String) (u : User) (a : Application)
      → Stands t u a
      → current_user hash (some t) a ≡ some u
  Stands-current_user t u a (l, e, h) = current_user-owner t a ∙ ap (λ o. owner o a.users) e ∙ h

  current_user-Stands :
      (t : String) (u : User) (a : Application)
      → current_user hash (some t) a ≡ some u
      → Stands t u a
  current_user-Stands t u a h = owned (lookup t a.tokens) refl (sym (current_user-owner t a) ∙ h)
    where
      owned : (o : Option Logins) → lookup t a.tokens ≡ o → owner o a.users ≡ some u → Stands t u a
      owned none e g = absurd (none-ne-some u g)
      owned (some l) e g = (l, e, g)

  get_user-append :
      (nick password : String) (users : List User) (v u : User)
      → get_user hash nick password users ≡ some u
      → get_user hash nick password (users ++ v ∷ []) ≡ some u
  get_user-append nick password [] v u h = absurd (none-ne-some u h)
  get_user-append nick password (w ∷ users) v u h =
      ground (arith, h, get_user-append nick password users v u)

  -- A new token takes nothing from the others.
  grant-Stands :
      (candidates : List String) (l : Logins) (id : String) (a : Application) (t : String)
      (u : User) (a' : Application) (r : Reply)
      → grant candidates l id a ≡ some (a', r)
      → Stands t u a
      → Stands t u a'
  grant-Stands candidates l id a t u a' r g (j, e, h) =
      let (k, m, n, same, _) = answer-some (get_token candidates l a.tokens) id a a' r g in
      subst (Stands t u) (sym same) (j, get_token-keeps candidates l a.tokens k m t j n e, h)

  -- The steps but for a change of a password and a logout of the token.
  abbrev pub IsSteady : String → (a b : Application) → Step hash a b → Type 0
  IsSteady t _ _ (logs_in candidates nick password r e) = Unit
  IsSteady t _ _ (logs_out token) = token ≢ some t
  IsSteady t _ _ (subscribes candidates id salt commits nick password r e) = Unit
  IsSteady t _ _ (changes_password candidates salt commits token old new confirm r e) = ⊥

  stored-Stands :
      (b : Bool) (a : Application) (v u : User) (t : String)
      → Stands t u a
      → Stands t u (record a { users = if b then a.users ++ v ∷ [] else a.users })
  stored-Stands true a v u t (j, e, h) = (j, e, get_user-append j.name j.password a.users v u h)
  stored-Stands false a v u t h = h

  Step-Stands :
      (t : String) (u : User) {a b : Application} (step : Step hash a b)
      → IsSteady t a b step
      → Stands t u a
      → Stands t u b
  unfolding login logout subscribe
  Step-Stands t u {a} {b} (logs_in candidates nick password r e) q h =
      admitted (get_user hash nick password a.users) e
    where
      admitted : (o : Option User) → admit o candidates nick password a ≡ some (b, r) → Stands t u b
      admitted none g = subst (Stands t u) (ap (λ x. x.0) (some-injective _ _ g)) h
      admitted (some v) g =
          grant-Stands candidates (record { name = nick; password = password }) v.id a t u b r g h
  Step-Stands t u {a} (logs_out token) q (j, e, h) =
      (j, delete_token-keeps token a.tokens t j q e, h)
  Step-Stands t u {a} {b} (subscribes candidates id salt commits nick password r e) q h =
      let v : User = record {
        id = id;
        nick = nick;
        salt = salt;
        password_hash = hash salt password;
      } in
      let stored : Bool = is_valid nick && commits in
      grant-Stands candidates (record { name = nick; password = password }) id
        (record a { users = if stored then a.users ++ v ∷ [] else a.users }) t u b r e
        (stored-Stands stored a v u t h)
  Step-Stands t u (changes_password candidates salt commits token old new confirm r e) q h =
      absurd q

  -- Whom a token stands for does not change in any sequence of logins, subscriptions, failed ones
  -- included, and logouts of other tokens.
  pub Along-current_user :
      {a b : Application} (t : String) (u : User)
      → Along hash (IsSteady t) a b
      → current_user hash (some t) a ≡ some u
      → current_user hash (some t) b ≡ some u
  Along-current_user {a} {b} t u r h = Stands-current_user t u b (stands r)
    where
      stands : {c : Application} → Along hash (IsSteady t) a c → Stands t u c
      stands here = current_user-Stands t u a h
      stands (next r step q) = Step-Stands t u step q (stands r)
