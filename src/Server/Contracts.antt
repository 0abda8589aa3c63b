-- ===== src/Server/Contracts.antt =====
-- The contracts of the server (src/main/java/controller/Contracts.java): each party has its own copy. A
-- method that throws has not committed, so the table stays as it was.
pub mod Laws
mod Tests
pub mod Edited
pub mod Find
pub mod Added
use gl_tomsxp.Common.{
  Outcome, done, threw, state, ◌>>=◌, ◌==◌, ◌≡◌, ℕ, suc, String, Option, none, some, Bool, true,
  false, List, [], ◌∷◌, ◌++◌, ◌&&◌, any, if◌then◌else◌, loose_eq,
}

pub data Wish : Type 0 where
  neutral accept refuse : Wish

pub data Status : Type 0 where
  nowhere signing finalized cancelled resolving : Status

-- `ContractEntity`, less the date. `names` are the nicks of the parties by their ids.
pub record Contract : Type 0 where
  pub id : String
  pub userid : String
  pub title : Option String
  pub clauses : Option (List String)
  pub parties : Option (List String)
  pub names : List (String × String)
  pub wish : Wish
  pub status : Status
  pub signatures : Option (List (String × String))
  pub establishement_data : Option String

-- What the body of a request holds of a contract.
pub record Draft : Type 0 where
  pub id : Option String
  pub userid : Option String
  pub title : Option String
  pub clauses : Option (List String)
  pub parties : Option (List String)

abbrev pub is_neutral : Wish → Bool
is_neutral neutral = true
is_neutral _ = false

-- `findOneById`
abbrev pub find : String → List Contract → Option Contract
find id [] = none
find id (c ∷ table) = let later = find id table in if c.id == id then some c else later

-- The entity that `findOneById` gives becomes `c`.
abbrev pub replace : String → Contract → List Contract → List Contract
replace id c [] = []
replace id c (d ∷ table) =
    let later = d ∷ replace id c table in if d.id == id then c ∷ table else later

abbrev pub remove : String → List Contract → List Contract
remove id [] = []
remove id (c ∷ table) = let later = c ∷ remove id table in if c.id == id then table else later

-- The nicks of the parties; a party that is no user throws.
unfoldable pub names_of : (String → Option String) → List String → Option (List (String × String))
names_of nick_of [] = some []
names_of nick_of (id ∷ ids) =
    let later = names_of nick_of ids in
    elim (nick_of id) [
      | none ↦ none
      | some nick ↦ elim later [ none ↦ none | some names ↦ some ((id, nick) ∷ names) ]
    ]

-- The copies that `add` persists, one for each of the parties, with the ids that are drawn.
abbrev pub copies :
    (ℕ → String)
    → ℕ
    → Option String
    → Draft
    → List (String × String)
    → List String
    → List String
    → List Contract
copies fresh k title d names parties [] = []
copies fresh k title d names parties (p ∷ ps) =
    record {
      id = fresh k;
      userid = p;
      title = title;
      clauses = d.clauses;
      parties = some parties;
      names = names;
      wish = neutral;
      status = nowhere;
      signatures = none;
      establishement_data = none;
    }
    ∷ copies fresh (suc k) title d names parties ps

-- They are persisted; without a user the first of them throws.
abbrev pub persist : Option String → List Contract → List Contract → Option (List Contract)
persist user [] table = some table
persist none (c ∷ new) table = none
persist (some u) (c ∷ new) table = some (table ++ c ∷ new)

-- The title that is stored; `is_empty` says whether `getTitle() == ""` holds, which compares references.
abbrev pub stored_title : (String → Bool) → Option String → Option String
stored_title is_empty none = none
stored_title is_empty (some t) =
    if is_empty t then some "Secure Exchange Protocol Contract" else some t

-- `add`, for the user `user`.
unfoldable pub add :
    (String → Bool)
    → (String → Option String)
    → (ℕ → String)
    → Option String
    → Draft
    → List Contract
    → Option (List Contract)
add is_empty nick_of fresh user d table = elim d.parties [
  | none ↦ none
  | some parties ↦ elim (names_of nick_of parties) [
    | none ↦ none
    | some names ↦
        persist user (copies fresh 0 (stored_title is_empty d.title) d names parties parties) table
  ]
]

-- `parties.contains(userid)`
abbrev pub contains : Option String → List String → Bool
contains userid ps = any (λ p. loose_eq (some p) userid) ps

-- What `edit` does to one of the contracts with the title of the body.
abbrev pub revise : Draft → List (String × String) → Contract → Option Contract
revise d names c = elim c.parties [
  | none ↦ none
  | some ps ↦ some (
      if contains d.userid ps && is_neutral c.wish
      then record c { clauses = d.clauses; parties = d.parties; title = d.title; names = names }
      else c)
]

-- `findAllByAttribute("title", …)` and the loop over it; null equals no title.
abbrev pub has_title : Option String → Contract → Bool
has_title none c = false
has_title (some t) c = loose_eq (some t) c.title

unfoldable pub revise_all : Draft → List (String × String) → List Contract → Option (List Contract)
revise_all d names [] = some []
revise_all d names (c ∷ table) =
    let later = revise_all d names table in
    elim (if has_title d.title c then revise d names c else some c) [
      | none ↦ none
      | some c' ↦ elim later [ none ↦ none | some table' ↦ some (c' ∷ table') ]
    ]

abbrev pub names_if :
    (String → Option String) → Option (List String) → Option (List (String × String))
names_if nick_of none = some []
names_if nick_of (some parties) = names_of nick_of parties

-- `edit`
unfoldable pub edit : (String → Option String) → Draft → List Contract → Option (List Contract)
edit nick_of d table = elim (names_if nick_of d.parties) [
  | none ↦ none
  | some names ↦ revise_all d names table
]

-- The rest of `delete` once the contract has been looked for: only its owner may delete it.
abbrev pub deleted :
    String → String → Option Contract → List Contract → Option (Bool × List Contract)
deleted user id none table = none
deleted user id (some c) table =
    if c.userid == user then some (true, remove id table) else some (false, table)

-- `delete`, for the user `user`: the answer, and the table.
unfoldable pub delete : Option String → String → List Contract → Option (Bool × List Contract)
delete none id table = some (false, table)
delete (some user) id table = deleted user id (find id table) table

-- What `sign` and `cancel` make of the contract they find: they throw, they leave it and answer "false",
-- or they change it and answer "true".
abbrev pub settle :
    String → Option (Option Contract) → List Contract → Option (Bool × List Contract)
settle id none table = none
settle id (some none) table = some (false, table)
settle id (some (some c)) table = some (true, replace id c table)

-- `start` is the signing protocol as it is started with the key of the user: it throws, or leaves a
-- status and the data that are to be stored.
abbrev pub establish :
    (Contract → Option (Status × String)) → Option String → Contract → Option (Option Contract)
establish start none c = none
establish start (some user) c = elim (start c) [
  | none ↦ none
  | some (status, establishement) ↦
      some (some (record c { status = status; establishement_data = some establishement }))
]

abbrev pub accepted : Contract → Contract
accepted c = record c {
  wish = accept;
  signatures = elim c.signatures [ none ↦ some [] | some s ↦ some s ];
}

abbrev pub signed :
    (Contract → Option (Status × String))
    → Option String
    → Contract
    → Status
    → Option (Option Contract)
signed start user c nowhere = establish start user (accepted c)
signed start user c _ = some none

-- `sign`
unfoldable pub sign :
    (Contract → Option (Status × String))
    → Option String
    → String
    → List Contract
    → Option (Bool × List Contract)
sign start user id table = elim (find id table) [
  | none ↦ none
  | some c ↦ settle id (signed start user c c.status) table
]

abbrev pub declined : Contract → Status → Option (Option Contract)
declined c nowhere = some (some (record c { wish = refuse; status = cancelled }))
declined c signing = some (some (record c { wish = refuse }))
declined c _ = some none

-- `cancel`, which looks at no token.
unfoldable pub cancel : String → List Contract → Option (Bool × List Contract)
cancel id table = elim (find id table) [
  | none ↦ none
  | some c ↦ settle id (declined c c.status) table
]

-- `get`: the contracts of the user are answered as they are found; then those that he has accepted are
-- signed, one after the other, each committed by itself.
abbrev pub listed : String → List Contract → List Contract
listed user [] = []
listed user (c ∷ table) =
    let later = listed user table in if c.userid == user then c ∷ later else later

abbrev pub is_accept : Wish → Bool
is_accept accept = true
is_accept _ = false

abbrev pub committed : Option (Bool × List Contract) → List Contract → Outcome (List Contract)
committed none table = threw table
committed (some (r, table')) table = done table'

unfoldable pub resign :
    (Contract → Option (Status × String))
    → Option String
    → List Contract
    → List Contract
    → Outcome (List Contract)
unfolding sign
resign start user [] table = done table
resign start user (c ∷ cs) table =
    (if is_accept c.wish then committed (sign start user c.id table) table else done table)
    >>= resign start user cs

unfoldable pub get_all :
    (Contract → Option (Status × String)) → Option String → List Contract → Outcome (List Contract)
get_all start none table = threw table
get_all start (some user) table = resign start (some user) (listed user table) table

-- The steps of the server on its contracts.
pub data Step (table : List Contract) : List Contract → Type 0 where
  adds :
      {table' : List Contract} (is_empty : String → Bool) (nick_of : String → Option String)
      (fresh : ℕ → String) (user : Option String) (d : Draft)
      → add is_empty nick_of fresh user d table ≡ some table'
      → Step table table'
  edits :
      {table' : List Contract} (nick_of : String → Option String) (d : Draft)
      → edit nick_of d table ≡ some table'
      → Step table table'
  deletes :
      {table' : List Contract} (user : Option String) (id : String) (r : Bool)
      → delete user id table ≡ some (r, table')
      → Step table table'
  signs :
      {table' : List Contract} (start : Contract → Option (Status × String)) (user : Option String)
      (id : String) (r : Bool)
      → sign start user id table ≡ some (r, table')
      → Step table table'
  cancels :
      {table' : List Contract} (id : String) (r : Bool)
      → cancel id table ≡ some (r, table')
      → Step table table'
  lists :
      (start : Contract → Option (Status × String)) (user : Option String)
      → Step table (state (get_all start user table))

-- The runs all of whose steps are allowed.
pub data Along (IsAllowed : (a b : List Contract) → Step a b → Type 0) (a : List Contract)
    : List Contract → Type 0 where
  here : Along IsAllowed a a
  next :
      {b c : List Contract}
      → Along IsAllowed a b
      → (step : Step b c) → IsAllowed b c step
      → Along IsAllowed a c
