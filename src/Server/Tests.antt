-- ===== src/Server/Tests.antt =====
-- Small runs of the server in src/main/java, to which its theorems are applied.
use gl_tomsxp.Common.{ap, loose_eq, ◌≡◌, refl, String, some, true, List, [], ◌∷◌, concat}
use mathlib.Core.Bool.{true≢false}
use gl_tomsxp.Server.Authentifier.{
  get_login, get_password, Logins, lookup, get_token, delete_token, Event, issued, deleted, Run,
  start, issues, deletes,
}
use gl_tomsxp.Server.Authentifier.Laws.{Run-holder}
use gl_tomsxp.Server.Users.{
  User, Application, Reply, current_user, login, logout, subscribe, change_password, is_valid,
  get_user,
}
use gl_tomsxp.Server.Users
use gl_tomsxp.Server.Users.Laws.{IsSteady, Along-current_user}
use gl_tomsxp.Server.Users.Subscribed.{change_password-old}

abbrev alice : Logins
alice = record { name = "alice"; password = "secret" }

abbrev bob : Logins
bob = record { name = "bob"; password = "1234" }

-- Two tokens are given out, the second after a draw of the first one, which is then deleted.
abbrev events : List Event
events = deleted (some "t1") ∷ issued "t2" bob ∷ issued "t1" alice ∷ []

event_run : Run events (("t2", bob) ∷ [])
unfolding get_token delete_token
event_run =
    deletes (some "t1")
      (issues ("t1" ∷ "t2" ∷ []) "t2" bob (issues ("t1" ∷ []) "t1" alice start refl) refl)

Run-holder_example : lookup "t2" (("t2", bob) ∷ []) ≡ some bob
Run-holder_example = Run-holder event_run "t2"

-- A hash that a test can compute.
abbrev hash : String → String → String
hash salt password = concat salt password

abbrev alice_user : User
alice_user = record { id = "1"; nick = "alice"; salt = "x"; password_hash = "xsecret" }

abbrev served_alice : Application
served_alice = record { tokens = ("t1", alice) ∷ []; users = alice_user ∷ [] }

abbrev with_bob : Application
with_bob = record {
  tokens = ("t2", bob) ∷ ("t1", alice) ∷ [];
  users = alice_user ∷ record { id = "2"; nick = "bob"; salt = "y"; password_hash = "y1234" } ∷ [];
}

-- Somebody else subscribes, and logs out.
steady : Users.Along hash (IsSteady hash "t1") served_alice (logout (some "t2") with_bob)
unfolding subscribe get_token
steady =
    Users.Along.next
      (Users.Along.next Users.Along.here
        (Users.Step.subscribes ("t1" ∷ "t2" ∷ []) "2" "y" true "bob" "1234"
          (Reply.accepted "t2" "2") refl)
        tt)
      (Users.Step.logs_out (some "t2")) (λ e. true≢false (ap (λ o. loose_eq o (some "t2")) e))

Along-current_user_example :
    current_user hash (some "t1") (logout (some "t2") with_bob) ≡ some alice_user
unfolding current_user get_login get_password
Along-current_user_example = Along-current_user hash "t1" alice_user steady refl

-- Alice changes her password.
abbrev renewed : Application
renewed = record {
  tokens = ("t2", record { name = "alice"; password = "better" }) ∷ ("t1", alice) ∷ [];
  users = record { id = "1"; nick = "alice"; salt = "z"; password_hash = "zbetter" } ∷ [];
}

change_password-old_example : login hash [] "alice" "secret" renewed ≡ some (renewed, Reply.error)
unfolding change_password get_token get_login
change_password-old_example =
    (change_password-old hash ("t2" ∷ []) [] "z" "alice" "secret" "better" "better" "t2" "1"
      (some "t1") served_alice renewed refl refl refl refl).0
