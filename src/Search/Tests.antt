-- ===== src/Search/Tests.antt =====
-- The search page at concrete inputs.
use mathlib.Core.Quot
use gl_tomsxp.Search.Liveness.{IsBounded, carried, search_reachable}
use gl_tomsxp.Common.{
  chars, ◌≡◌, refl, ℕ, zero, suc, String, Option, none, some, false, List, [], ◌∷◌, length, arith,
  state,
}
use gl_tomsxp.Results.{push_all}
use gl_tomsxp.Search.{Item, Search, unset, node_received, search, start}
use gl_tomsxp.Search.Query.{search_url, search-value}
use gl_tomsxp.Client.Query.{value}
use gl_tomsxp.Search.Streams.{IsValid, Step, Reach, Orderly, Reach-IsValid, Orderly-newest}

abbrev pear : Item
pear = record { id = some "1"; title = some "pear" }

abbrev plum : Item
plum = record { id = some "2"; title = some "plum" }

abbrev page : Search
page = record {
  research = some "p";
  results = [];
  stream = none;
  status = unset;
  error_search = false;
  search_item = false;
  launched = [];
  aborted = [];
}

abbrev server : String
server = "https://localhost:8081"

abbrev running : Search
running = record page { stream = some 0; launched = "u" ∷ []; results = pear ∷ [] }

abbrev node : List (Option Item)
node = some pear ∷ none ∷ some plum ∷ []

page-IsValid : IsValid page
page-IsValid = record { distinct = tt; banner = λ e. refl; handle = λ n e. cc }

one_search : Reach server page (start 0 (search server (record page { research = some "p" })))
unfolding search
one_search =
    Reach.next (Reach.next Reach.here (Step.types (some "p"))) (Step.starts 0 (omega arith, refl))

node_received_test : (state (node_received (some node) running)).results ≡ pear ∷ plum ∷ []
unfolding node_received push_all
node_received_test = refl

many : ℕ → List Item
many zero = []
many (suc n) = pear ∷ many n

length-many : (n : ℕ) → length (many n) ≡ n
unfolding many
length-many zero = refl
length-many (suc n) = omega (arith, length-many n)

Reach-IsValid_example : IsValid (start 0 (search server (record page { research = some "p" })))
Reach-IsValid_example = Reach-IsValid page-IsValid one_search

Orderly-newest_example :
    1 ≡ length (start 0 (search server (record page { research = some "p" }))).launched
unfolding search start
Orderly-newest_example =
    Orderly-newest {server = server} {s = page} 0 refl
      (Orderly.starts 0 (Orderly.types Orderly.here (λ n h. absurd (omega arith)) (some "p"))
        (omega arith, refl))
      (omega arith, refl)

page-IsBounded : IsBounded page
page-IsBounded = record { handle = λ n e. cc; aborted = λ n e. cc }

search_reachable_example : (carried server (some "p") node page).stream ≡ none
search_reachable_example =
    (search_reachable {s = page} {t = page} server (some "p") node page-IsBounded Reach.here
      (λ e. cc) (omega arith)).4

search-value_example : value "title" (chars (search_url server "C&A")) ≡ some (chars "C")
search-value_example = (search-value server (record page { research = some "C&A" }) refl refl).1
