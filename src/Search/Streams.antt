-- ===== src/Search/Streams.antt =====
-- The search page and its streams in time (src/main/js/modules/search.js): which events `Oboe`
-- may deliver, what every order of them keeps, and how two searches can mix.
use gl_tomsxp.Common.{
  ap, ◌⊎◌, nat_eq_iff, suc, ◌≡◌, ℕ, ◌<◌, String, Option, none, some, Bool, true, false, List, [],
  ◌∷◌, any, length, nat_eq, arith, state,
}
use gl_tomsxp.Results.{push_result}
use gl_tomsxp.Results.Laws.{Distinct, push_all-Distinct}
use gl_tomsxp.Search.{Item, Search, node_received, search, start, finish}
use gl_tomsxp.Search.Laws.{key}

abbrev pub is_aborted : ℕ → Search → Bool
is_aborted n s = any (λ m. nat_eq m n) s.aborted

-- Stream `n` was launched and has not been aborted, so `Oboe` may still report on it.
abbrev pub IsLive : ℕ → Search → Type 0
IsLive n s = (n < length s.launched) × (is_aborted n s ≡ false)

-- The user types a text, which launches a search at each key; `Oboe` reports on live streams only.
pub data Step (server : String) (s : Search) : Search → Type 0 where
  types : (text : Option String) → Step server s (search server (record s { research = text }))
  starts : (n : ℕ) → IsLive n s → Step server s (start n s)
  receives :
      (n : ℕ) (node : Option (List (Option Item)))
      → IsLive n s
      → Step server s (state (node_received node s))
  finishes : (n : ℕ) → IsLive n s → Step server s (finish s)

pub data Reach (server : String) (s : Search) : Search → Type 0 where
  here : Reach server s s
  next : {t u : Search} → Reach server s t → Step server t u → Reach server s u

-- What holds of the page whatever the streams do.
pub record IsValid (s : Search) : Type 0 where
  pub distinct : Distinct key s.results
  pub banner : s.error_search ≡ true → s.results ≡ []
  pub handle : (n : ℕ) → s.stream ≡ some n → n < length s.launched

search-IsValid :
    (server : String) (text : Option String) (s : Search)
    → IsValid s
    → IsValid (search server (record s { research = text }))
unfolding search
search-IsValid server text s v = record {
  distinct = ground arith;
  banner = ground arith;
  handle = λ n e. ground (arith, v.handle n);
}

node_received-IsValid :
    (node : Option (List (Option Item))) (s : Search)
    → IsValid s
    → IsValid (state (node_received node s))
unfolding node_received
node_received-IsValid none s v = record {
  distinct = ground (arith, v.distinct);
  banner = ground arith;
  handle = λ n e. ground (arith, v.handle n);
}
node_received-IsValid (some []) s v = record {
  distinct = ground (arith, v.distinct);
  banner = ground arith;
  handle = λ n e. ground (arith, v.handle n);
}
node_received-IsValid (some (x ∷ node)) s v = record {
  distinct = ground (arith, push_all-Distinct key (x ∷ node) s.results v.distinct);
  banner = ground arith;
  handle = λ n e. ground (arith, v.handle n);
}

Step-IsValid : {server : String} {s t : Search} → Step server s t → IsValid s → IsValid t
unfolding start finish
Step-IsValid {server} {s} (types text) v = search-IsValid server text s v
Step-IsValid (starts n live) v = record {
  distinct = v.distinct;
  banner = v.banner;
  handle = λ m e. ground (arith, live.0);
}
Step-IsValid {server} {s} (receives n node live) v = node_received-IsValid node s v
Step-IsValid (finishes n live) v = record {
  distinct = v.distinct;
  banner = v.banner;
  handle = v.handle;
}

-- In every order of keystrokes and reports, from a state where it is so, the ids displayed are
-- distinct, the banner "No objects found" goes with an empty list, and the handle at hand is that of
-- a stream that was launched.
pub Reach-IsValid : {server : String} {s t : Search} → IsValid s → Reach server s t → IsValid t
Reach-IsValid v here = v
Reach-IsValid v (next r step) = Step-IsValid step (Reach-IsValid v r)

-- The newest stream has started, and its handle is at hand, or it has been aborted.
abbrev pub IsSettled : Search → Type 0
IsSettled s = (n : ℕ) → suc n ≡ length s.launched → (is_aborted n s ≡ true) ⊎ (s.stream ≡ some n)

-- The runs in which each search waits for the start of the stream before.
pub data Orderly (server : String) (s : Search) : Search → Type 0 where
  here : Orderly server s s
  types :
      {t : Search}
      → Orderly server s t
      → IsSettled t
      → (text : Option String) → Orderly server s (search server (record t { research = text }))
  starts : {t : Search} (n : ℕ) → Orderly server s t → IsLive n t → Orderly server s (start n t)
  receives :
      {t : Search} (n : ℕ) (node : Option (List (Option Item)))
      → Orderly server s t
      → IsLive n t
      → Orderly server s (state (node_received node t))
  finishes : {t : Search} (n : ℕ) → Orderly server s t → IsLive n t → Orderly server s (finish t)

-- Every stream but the newest is aborted.
abbrev IsCurrent : Search → Type 0
IsCurrent s = (n : ℕ) → suc n < length s.launched → is_aborted n s ≡ true

search-IsCurrent :
    (server : String) (text : Option String) (s : Search)
    → IsCurrent s
    → IsSettled s
    → IsCurrent (search server (record s { research = text }))
unfolding search
search-IsCurrent server text s current settled n h =
    ground (arith, current n, settled n, nat_eq_iff n n)

node_received_keeps :
    (node : Option (List (Option Item))) (s : Search) (n : ℕ)
    → ((state (node_received node s)).launched ≡ s.launched)
      × (is_aborted n s ≡ true → is_aborted n (state (node_received node s)) ≡ true)
unfolding node_received
node_received_keeps none s n = ground arith
node_received_keeps (some []) s n = ground arith
node_received_keeps (some (x ∷ node)) s n = ground arith

Orderly-IsCurrent :
    {server : String} {s t : Search} → IsCurrent s → Orderly server s t → IsCurrent t
unfolding start finish
Orderly-IsCurrent {server} c here = c
Orderly-IsCurrent {server} c (types {t = t} r settled text) =
    search-IsCurrent server text t (Orderly-IsCurrent c r) settled
Orderly-IsCurrent c (starts n r live) = Orderly-IsCurrent c r
Orderly-IsCurrent c (receives {t = t} n node r live) =
    let ih = Orderly-IsCurrent c r in
    λ m h. let (same, kept) = node_received_keeps node t m in kept (ih m (rw same at h))
Orderly-IsCurrent c (finishes n r live) = Orderly-IsCurrent c r

-- If each search waits for the start of the stream before, only the stream that was launched last
-- can still report.
pub Orderly-newest :
    {server : String} {s t : Search} (n : ℕ)
    → s.launched ≡ []
    → Orderly server s t
    → IsLive n t
    → suc n ≡ length t.launched
Orderly-newest {server} {s} {t} n e r (launched, running) =
    let no_stream : length s.launched ≡ 0 = ap length e in
    let current = Orderly-IsCurrent {s = s} (λ m h. absurd (omega arith)) r in
    ground (arith, current n)

-- A search that is launched before the stream of the one before has started aborts nothing, and
-- what the older stream brings afterwards is listed under the newer text.
pub stale_results :
    (server : String) (s : Search) (old new : Option String) (n : ℕ) (x : Item)
    → s.stream ≡ none
    → let t =
        start n (
          search server
            (record (search server (record s { research = old })) { research = new })) in
      let u = state (node_received (some (some x ∷ [])) t) in
      (t.aborted ≡ s.aborted) × (u.research ≡ new) × (u.results ≡ x ∷ [])
unfolding search start node_received push_result
stale_results server s old new n x e = ground arith
