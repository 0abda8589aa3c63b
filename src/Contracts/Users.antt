-- ===== src/Contracts/Users.antt =====
-- The list of users from which a party is chosen: `getUsers` of src/main/js/modules/contracts.js.
-- The loop writes to the user's own index, so a user without a nick leaves a hole, `none`.
pub mod Laws
use gl_tomsxp.Common.{
  ℕ, zero, suc, String, Option, none, some, List, [], ◌∷◌, loose_eq, if◌then◌else◌,
}
use gl_tomsxp.Client.{Client, get, call_http}

-- A user as the server sends it.
pub record Account : Type 0 where
  pub id : Option String
  pub nick : Option String

pub record Entry : Type 0 where
  pub name : Option String
  pub id : Option String

-- `list[i] = x`, which lengthens the array if need be.
unfoldable pub assign : {A : Type 0} → ℕ → A → List (Option A) → List (Option A)
assign zero x [] = some x ∷ []
assign zero x (y ∷ ys) = some x ∷ ys
assign (suc i) x [] = none ∷ assign i x []
assign (suc i) x (y ∷ ys) = y ∷ assign i x ys

abbrev pub entry : Account → Entry
entry u = record { name = u.nick; id = u.id }

-- The loop from index `i` on.
fill : ℕ → List Account → List (Option Entry) → List (Option Entry)
unfolding assign
fill i [] list = list
fill i (u ∷ users) list =
    fill (suc i) users (if loose_eq u.nick (some "") then list else assign i (entry u) list)

unfoldable pub user_list : List Account → List (Option Entry)
unfolding fill
user_list users = fill 0 users []

unfoldable pub get_users : Client → Client
unfolding call_http
get_users c = call_http get "/api/users/" [] c
