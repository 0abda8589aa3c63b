-- ===== src/Search/Laws.antt =====
-- What the handler of a node does (src/main/js/modules/search.js, the third callback of `then`).
use gl_tomsxp.Common.{
  ◌≡◌, refl, ◌∙◌, ◌↔◌, ℕ, ◌<◌, String, Option, none, some, Bool, true, List, [], ◌∷◌, ◌++◌, ◌||◌,
  length, nat_eq, arith, if◌then◌else◌, done, threw, state, ◌≢◌, All,
}
use gl_tomsxp.Results.Laws.{fresh, push_all-eq-append, length-le-push_all}
use gl_tomsxp.Search.{Item, Search, node_received, is_empty}

abbrev pub key : Item → Option String
key r = r.id

-- The objects of a node; null has none.
abbrev pub objects : Option (List (Option Item)) → List (Option Item)
objects none = []
objects (some node) = node

abbrev pub closes : Option (List (Option Item)) → Bool
closes none = true
closes (some node) = is_empty node

-- The node's new objects are appended, and nothing that was displayed is lost.
pub node_received-results :
    (node : Option (List (Option Item))) (s : Search)
    → (state (node_received node s)).results ≡ s.results ++ fresh key s.results (objects node)
unfolding node_received
node_received-results none s = ground (arith, push_all-eq-append key [] s.results)
node_received-results (some []) s = ground (arith, push_all-eq-append key [] s.results)
node_received-results (some (x ∷ node)) s =
    ground (arith, push_all-eq-append key (x ∷ node) s.results)

-- After a node the banner "No objects found" is displayed exactly if nothing is listed.
pub error_search-node_received :
    (node : Option (List (Option Item))) (s : Search)
    → ((state (node_received node s)).error_search ≡ true)
      ↔ ((state (node_received node s)).results ≡ [])
unfolding node_received
error_search-node_received none s = ground arith
error_search-node_received (some []) s = ground arith
error_search-node_received (some (x ∷ node)) s = ground arith

-- The length that makes the handler abort, or a node that is null or empty.
abbrev pub stops : Option (List (Option Item)) → Search → Bool
stops node s = nat_eq (length (s.results ++ fresh key s.results (objects node))) 1000 || closes node

-- With a stream at hand a node never throws: the stream is aborted and forgotten exactly if the
-- node is null or empty or the list is now exactly 1000 long, and is kept otherwise.
pub node_received-stream :
    (node : Option (List (Option Item))) (s : Search) (n : ℕ)
    → s.stream ≡ some n
    → (node_received node s ≡ done (state (node_received node s)))
      × ((state (node_received node s)).stream ≡ (if stops node s then none else some n))
      × ((state (node_received node s)).aborted
          ≡ (if stops node s then n ∷ s.aborted else s.aborted))
unfolding node_received
node_received-stream none s n h = ground arith
node_received-stream (some []) s n h = ground (arith, push_all-eq-append key [] s.results)
node_received-stream (some (x ∷ node)) s n h =
    ground (arith, push_all-eq-append key (x ∷ node) s.results)

-- With no stream at hand a node throws exactly if the handler wants to abort, and the list keeps
-- what the node brought.
pub node_received-threw :
    (node : Option (List (Option Item))) (s : Search)
    → s.stream ≡ none
    → (node_received node s ≡ (
        if stops node s
        then threw (state (node_received node s))
        else done (state (node_received node s))))
      × ((state (node_received node s)).results ≡ s.results ++ fresh key s.results (objects node))
unfolding node_received
node_received-threw none s h = ground (arith, push_all-eq-append key [] s.results)
node_received-threw (some []) s h = ground (arith, push_all-eq-append key [] s.results)
node_received-threw (some (x ∷ node)) s h =
    ground (arith, push_all-eq-append key (x ∷ node) s.results)

-- The nodes of one stream, one after the other.
abbrev pub receive_all : List (List (Option Item)) → Search → Search
receive_all [] s = s
receive_all (node ∷ nodes) s = receive_all nodes (state (node_received (some node) s))

abbrev pub IsLong : Search → Type 0
IsLong s = 1000 < length s.results

receive-IsLong :
    (node : List (Option Item)) (s : Search)
    → IsLong s
    → node ≢ []
    → IsLong (state (node_received (some node) s))
      × ((state (node_received (some node) s)).stream ≡ s.stream)
      × ((state (node_received (some node) s)).aborted ≡ s.aborted)
unfolding node_received
receive-IsLong [] s h ne = absurd (ne refl)
receive-IsLong (x ∷ node) s h ne = ground (arith, length-le-push_all key (x ∷ node) s.results)

-- Once the list is longer than 1000, no node that holds anything aborts the stream any more,
-- however many come, and the list stays that long.
pub receive_all_past_limit :
    (nodes : List (List (Option Item))) (s : Search)
    → IsLong s
    → All (λ node. node ≢ []) nodes
    → IsLong (receive_all nodes s)
      × ((receive_all nodes s).stream ≡ s.stream)
      × ((receive_all nodes s).aborted ≡ s.aborted)
receive_all_past_limit [] s h ne = (h, refl, refl)
receive_all_past_limit (node ∷ nodes) s h (ne, rest) =
    let (long, same, kept) = receive-IsLong node s h ne in
    let (long', same', kept') = receive_all_past_limit nodes _ long rest in
    (long', same' ∙ same, kept' ∙ kept)
