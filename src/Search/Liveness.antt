-- ===== src/Search/Liveness.antt =====
-- A search can always be carried through (src/main/js/modules/search.js).
use gl_tomsxp.Common.{
  ap, ◌∙◌, ◌∙◌, inr, inl, Option-cases, ◌≡◌, ◌≢◌, refl, ℕ, ◌<◌, String, Option, none, some, true,
  false, List, [], ◌∷◌, length, any, nat_eq, nat_eq_iff, arith, state,
}
use gl_tomsxp.Results.Laws.{fresh, push_all-eq-append}
use gl_tomsxp.Search.{Item, Search, node_received, search, start, finish}
use gl_tomsxp.Search.Laws.{key}
use gl_tomsxp.Search.Streams.{Step, Reach, IsLive, is_aborted}

-- The handle at hand and the streams that were aborted are all launched.
pub record IsBounded (s : Search) : Type 0 where
  pub handle : (n : ℕ) → s.stream ≡ some n → n < length s.launched
  pub aborted : (n : ℕ) → is_aborted n s ≡ true → n < length s.launched

search-IsBounded :
    (server : String) (text : Option String) (s : Search)
    → IsBounded s
    → IsBounded (search server (record s { research = text }))
unfolding search
search-IsBounded server text s b = record {
  handle = λ n e. ground (arith, b.handle n);
  aborted = λ n h. elim (Option-cases s.stream) [
    | inl e ↦ ground (arith, b.aborted n)
    | inr (m, e) ↦ ground (arith, b.aborted n, b.handle m, nat_eq_iff m n)
  ];
}

-- What is left of the two facts once the stream at hand is aborted.
stopped-IsBounded :
    (s : Search) (m n : ℕ)
    → IsBounded s
    → s.stream ≡ some m
    → any (λ k. nat_eq k n) (m ∷ s.aborted) ≡ true
    → n < length s.launched
stopped-IsBounded s m n b e h = ground (arith, b.aborted n, b.handle m, nat_eq_iff m n)

node_received-IsBounded :
    (node : Option (List (Option Item))) (s : Search)
    → IsBounded s
    → IsBounded (state (node_received node s))
unfolding node_received
node_received-IsBounded none s b = record {
  handle = λ n e. ground (arith, b.handle n);
  aborted = λ n h. elim (Option-cases s.stream) [
    | inl e ↦ ground (arith, b.aborted n)
    | inr (m, e) ↦ ground (arith, stopped-IsBounded s m n b)
  ];
}
node_received-IsBounded (some []) s b = record {
  handle = λ n e. ground (arith, b.handle n);
  aborted = λ n h. elim (Option-cases s.stream) [
    | inl e ↦ ground (arith, b.aborted n)
    | inr (m, e) ↦ ground (arith, stopped-IsBounded s m n b)
  ];
}
node_received-IsBounded (some (x ∷ node)) s b = record {
  handle = λ n e. ground (arith, b.handle n);
  aborted = λ n h. elim (Option-cases s.stream) [
    | inl e ↦ ground (arith, b.aborted n)
    | inr (m, e) ↦ ground (arith, b.aborted n, stopped-IsBounded s m n b)
  ];
}

Step-IsBounded : {server : String} {s t : Search} → Step server s t → IsBounded s → IsBounded t
unfolding start finish
Step-IsBounded {server} {s} (Step.types text) b = search-IsBounded server text s b
Step-IsBounded (Step.starts n live) b = record {
  handle = λ m e. ground (arith, live.0);
  aborted = b.aborted;
}
Step-IsBounded {server} {s} (Step.receives n node live) b = node_received-IsBounded node s b
Step-IsBounded (Step.finishes n live) b = record { handle = b.handle; aborted = b.aborted }

Reach-IsBounded : {server : String} {s t : Search} → IsBounded s → Reach server s t → IsBounded t
Reach-IsBounded b Reach.here = b
Reach-IsBounded b (Reach.next r step) = Step-IsBounded step (Reach-IsBounded b r)

-- The text is typed, its stream starts, brings a node, and then an empty one.
abbrev pub begun : String → Option String → Search → Search
begun server text s = start (length s.launched) (search server (record s { research = text }))

abbrev pub carried : String → Option String → List (Option Item) → Search → Search
carried server text node s =
    state (node_received (some []) (state (node_received (some node) (begun server text s))))

search-IsLive :
    (server : String) (text : Option String) (s : Search)
    → IsBounded s
    → IsLive (length s.launched) (search server (record s { research = text }))
unfolding search
search-IsLive server text s b = elim (Option-cases s.stream) [
  | inl e ↦ ground (arith, b.aborted (length s.launched))
  | inr (m, e) ↦
      ground (arith, b.aborted (length s.launched), b.handle m, nat_eq_iff m (length s.launched))
]

begun-IsLive :
    (server : String) (text : Option String) (s : Search)
    → IsBounded s
    → IsLive (length s.launched) (begun server text s)
unfolding start
begun-IsLive server text s b = search-IsLive server text s b

IsLive-eq :
    (n : ℕ) (s t : Search)
    → t.launched ≡ s.launched
    → t.aborted ≡ s.aborted
    → IsLive n s
    → IsLive n t
IsLive-eq n s t e e' (launched, running) =
    (rw e launched, ap (λ ms. any (λ m. nat_eq m n) ms) e' ∙ running)

begun_lem :
    (server : String) (text : Option String) (s : Search)
    → let t = begun server text s in
      (t.stream ≡ some (length s.launched)) × (t.results ≡ []) × (t.research ≡ text)
unfolding search start
begun_lem server text s = (refl, ground arith, ground arith)

-- A node that leaves the limit aside only adds its fresh objects.
node_received_adds :
    (node : List (Option Item)) (s : Search) (n : ℕ)
    → s.stream ≡ some n
    → s.results ≡ []
    → node ≢ []
    → length (fresh key [] node) ≢ 1000
    → let u = state (node_received (some node) s) in
      (u.results ≡ fresh key [] node)
      × (u.research ≡ s.research)
      × (u.stream ≡ s.stream)
      × (u.launched ≡ s.launched)
      × (u.aborted ≡ s.aborted)
unfolding node_received
node_received_adds [] s n e e' ne h = absurd (ne refl)
node_received_adds (x ∷ node) s n e e' ne h =
    ground (arith, push_all-eq-append key (x ∷ node) s.results)

node_received_empty :
    (s : Search) (n : ℕ)
    → s.stream ≡ some n
    → let u = state (node_received (some []) s) in
      (u.results ≡ s.results)
      × (u.research ≡ s.research)
      × (u.stream ≡ none)
      × (u.search_item ≡ false)
unfolding node_received
node_received_empty s n e = ground arith

-- From every state that the page reaches from one in which the streams at hand and aborted are
-- launched ones, a search can be carried through: the user types a text, its stream starts, brings
-- a node and then an empty one. Then exactly the objects of the node are listed, each id once,
-- under that text, the loader is gone, and the stream is closed; unless the node has exactly 1000.
pub search_reachable :
    {s t : Search} (server : String) (text : Option String) (node : List (Option Item))
    → IsBounded s
    → Reach server s t
    → node ≢ []
    → length (fresh key [] node) ≢ 1000
    → let u = carried server text node t in
      Reach server s u
      × (u.research ≡ text)
      × (u.results ≡ fresh key [] node)
      × (u.search_item ≡ false)
      × (u.stream ≡ none)
search_reachable {s} {t} server text node b r ne h =
    let begins = begun server text t in
    let n = length t.launched in
    let (stream, empty, typed) = begun_lem server text t in
    let live = begun-IsLive server text t (Reach-IsBounded b r) in
    let (grown, same, running, launched, aborted) =
      node_received_adds node begins n stream empty ne h in
    let (listed, kept, closed, done) =
      node_received_empty (state (node_received (some node) begins)) n (running ∙ stream) in
    (
      Reach.next
          (Reach.next
            (Reach.next (Reach.next r (Step.types text))
              (Step.starts n (search-IsLive server text t (Reach-IsBounded b r))))
            (Step.receives n (some node) live))
          (Step.receives n (some [])
            (IsLive-eq n begins (state (node_received (some node) begins)) launched aborted live)),
      kept ∙ same ∙ typed,
      listed ∙ grown,
      done,
      closed,
    )
