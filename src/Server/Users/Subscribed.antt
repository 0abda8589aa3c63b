-- ===== src/Server/Users/Subscribed.antt =====
-- What a subscription and a change of the password do to the logins that follow
-- (src/main/java/controller/Users.java).
use gl_tomsxp.Common.{
  sym, eq_iff, inr, inl, Option, Bool-cases, ap, ◌∙◌, refl, arith, ◌==◌, ◌≡◌, String, none, some,
  Bool, true, false, List, [], ◌∷◌, ℕ, ◌+◌, if◌then◌else◌,
}
use mathlib.Core.Option.{none-ne-some, some-injective}
use gl_tomsxp.Server.Authentifier.{lookup, get_login, Logins, get_token}
use gl_tomsxp.Server.Users.{
  exchange, find, current_user, change_password, User, Application, accepted, error, is_user,
  get_user, admit, login, renew,
}
use gl_tomsxp.Server.Users.Laws.{answer-some, current_user-owner, owner}

module _ (hash : String → String → String) where
  -- How many users have that nick and that password.
  abbrev pub matching : String → String → List User → ℕ
  matching nick password [] = 0
  matching nick password (u ∷ users) =
      (if is_user hash nick password u then 1 else 0) + matching nick password users

  get_user-matching :
      (nick password : String) (users : List User)
      → matching nick password users ≡ 0
      → get_user hash nick password users ≡ none
  get_user-matching nick password [] h = refl
  get_user-matching nick password (u ∷ users) h =
      ground (arith, h, get_user-matching nick password users)

  matching-renew :
      (nick old salt new : String) (users : List User) (u : User)
      → (hash salt new == hash salt old) ≡ false
      → get_user hash nick old users ≡ some u
      → matching nick old (renew hash nick old salt new users) + 1 ≡ matching nick old users
  matching-renew nick old salt new [] u d h = absurd (none-ne-some u h)
  matching-renew nick old salt new (w ∷ users) u d h =
      ground (arith, d, h, matching-renew nick old salt new users u d)

  get_user-nick :
      (nick password : String) (users : List User) (u : User)
      → get_user hash nick password users ≡ some u
      → u.nick ≡ nick
  get_user-nick nick password [] u h = absurd (none-ne-some u h)
  get_user-nick nick password (w ∷ users) u h = elim (Bool-cases (is_user hash nick password w)) [
    | inl e ↦
        let same : w ≡ u = some-injective w u (ground (arith, e, h)) in
        ap (λ x. x.nick) (sym same) ∙ (eq_iff w.nick nick).0 (ground (arith, e))
    | inr e ↦ get_user-nick nick password users u (ground (arith, e, h))
  ]

  -- A change that is accepted has found a user, and renewed him.
  change_password-renew :
      (candidates : List String) (salt old new t id : String) (a b : Application) (s : Bool)
      (o : Option User)
      → (if s then exchange hash o candidates salt true old new a else some (a, error))
        ≡ some (b, accepted t id)
      → (u : User) × (o ≡ some u) × (b.users ≡ renew hash u.nick old salt new a.users)
  change_password-renew candidates salt old new t id a b false o g = absurd (ground (arith, g))
  change_password-renew candidates salt old new t id a b true none g = absurd (ground (arith, g))
  change_password-renew candidates salt old new t id a b true (some u) g =
      let l : Logins = record { name = u.nick; password = new } in
      let c : Application = record a { users = renew hash u.nick old salt new a.users } in
      let (k, m, n, same, reply) =
        answer-some (get_token candidates l a.tokens) u.id c b (accepted t id) g in
      (u, refl, ap (λ x. x.users) same)

  -- After a change of the password that the server accepts, the old password of the nick is of no use, if
  -- one user had both and the new password has another hash: a login with it is refused, and every token
  -- that was given out for it stands for nobody.
  pub change_password-old :
      (candidates later : List String) (salt nick old new confirm t id : String)
      (token : Option String) (a b : Application)
      → change_password hash candidates salt true token old new confirm a ≡ some (b, accepted t id)
      → get_login token a.tokens ≡ some nick
      → (hash salt new == hash salt old) ≡ false
      → matching nick old a.users ≡ 1
      → (login hash later nick old b ≡ some (b, error))
        × ((k : String)
            → lookup k b.tokens ≡ some (record { name = nick; password = old })
            → current_user hash (some k) b ≡ none)
  unfolding change_password login
  change_password-old candidates later salt nick old new confirm t id token a b e n d one =
      let (u, found, renewed) =
        change_password-renew candidates salt old new t id a b (new == confirm)
          (find hash (get_login token a.tokens) (some old) a.users) e in
      let user : get_user hash nick old a.users ≡ some u =
        sym (ap (λ o. find hash o (some old) a.users) n) ∙ found in
      let fewer = matching-renew nick old salt new a.users u d user in
      let same : b.users ≡ renew hash nick old salt new a.users =
        renewed
        ∙ ap (λ x. renew hash x old salt new a.users) (get_user-nick nick old a.users u user) in
      let gone : get_user hash nick old b.users ≡ none =
        ap (get_user hash nick old) same
        ∙ get_user-matching nick old (renew hash nick old salt new a.users)
            (omega (arith, fewer, one)) in
      (
        ap (λ o. admit o later nick old b) gone,
        λ k held. current_user-owner hash k b ∙ ap (λ o. owner hash o b.users) held ∙ gone,
      )
