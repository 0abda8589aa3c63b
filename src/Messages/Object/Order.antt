-- ===== src/Messages/Object/Order.antt =====
-- The order in which `for … in` goes through a plain object (`tmp` in
-- src/main/js/modules/messages.js), and that it comes to no key twice.
use gl_tomsxp.Common.{
  ◌≡◌, ◌≢◌, refl, String, Option, none, some, Bool, true, false, [], ◌∷◌, ◌++◌, ◌==◌, eq_iff,
  eq_refl, arith, is_some, ltb, not, All, All-append, Bool-cases, inl, inr,
}
use gl_tomsxp.Messages.Object.{
  Object, same, write, put, array_index, pick, before, insert, sort, entries,
}
use gl_tomsxp.Messages.Object.Laws.{
  lookup, lookup-write, lookup-pick, lookup-insert, lookup-sort, lookup-append,
}

-- No key stands twice.
abbrev pub NoRepeat : Object → Type 0
NoRepeat [] = Unit
NoRepeat ((k, v) ∷ o) = (lookup k o ≡ none) × NoRepeat o

write-NoRepeat :
    (key : String) (v : Option String) (o : Object) → NoRepeat o → NoRepeat (write key v o)
unfolding write
write-NoRepeat key v [] h = (refl, tt)
write-NoRepeat key v ((k, w) ∷ o) (new, h) = elim (Bool-cases (k == key)) [
  | inl e ↦ rw e (new, h)
  | inr e ↦ rw e (
    ground (arith, lookup-write key k v o, eq_iff key k, eq_iff k key, new),
    write-NoRepeat key v o h,
  )
]

pub put-NoRepeat :
    (key : String) (v : Option String) (o : Object) → NoRepeat o → NoRepeat (put key v o)
unfolding put
put-NoRepeat key v o h = elim (Bool-cases (key == "__proto__")) [
  | inl e ↦ rw e h
  | inr e ↦ rw e (write-NoRepeat key v o h)
]

pick-NoRepeat : (indexed : Bool) (o : Object) → NoRepeat o → NoRepeat (pick indexed o)
pick-NoRepeat indexed [] h = tt
pick-NoRepeat indexed ((k, v) ∷ o) (new, h) =
    elim (Bool-cases (same indexed (is_some (array_index k)))) [
      | inl e ↦ rw e (ground (arith, lookup-pick indexed k o, new), pick-NoRepeat indexed o h)
      | inr e ↦ rw e (pick-NoRepeat indexed o h)
    ]

insert-NoRepeat :
    (key : String) (v : Option String) (o : Object)
    → lookup key o ≡ none
    → NoRepeat o
    → NoRepeat (insert key v o)
unfolding insert
insert-NoRepeat key v [] h d = (refl, tt)
insert-NoRepeat key v ((k, w) ∷ o) h (new, d) = elim (Bool-cases (before k key)) [
  | inl e ↦ rw e (
    ground (arith, lookup-insert key k v o, eq_iff key k, eq_iff k key, new, h),
    insert-NoRepeat key v o (ground (arith, h)) d,
  )
  | inr e ↦ rw e (h, (new, d))
]

sort-NoRepeat : (o : Object) → NoRepeat o → NoRepeat (sort o)
unfolding sort
sort-NoRepeat [] h = tt
sort-NoRepeat ((k, v) ∷ o) (new, h) =
    insert-NoRepeat k v (sort o) (rw (lookup-sort k o) new) (sort-NoRepeat o h)

append-NoRepeat :
    (o p : Object)
    → NoRepeat o
    → NoRepeat p
    → ((k : String) → lookup k o ≢ none → lookup k p ≡ none)
    → NoRepeat (o ++ p)
append-NoRepeat [] p h g apart = g
append-NoRepeat ((k, v) ∷ o) p (new, h) g apart = (
  ground (arith, lookup-append k o p, new, apart k, eq_refl k),
  append-NoRepeat o p h g (λ j n. apart j (ground (arith, n))),
)

pub entries-NoRepeat : (o : Object) → NoRepeat o → NoRepeat (entries o)
unfolding entries
entries-NoRepeat o h =
    append-NoRepeat (sort (pick true o)) (pick false o)
      (sort-NoRepeat (pick true o) (pick-NoRepeat true o h)) (pick-NoRepeat false o h)
      (λ k n.
        ground (arith, n, lookup-sort k (pick true o), lookup-pick true k o, lookup-pick false k o))

-- A key may stand before another: an index before greater ones, and before keys that are none.
abbrev pub precedes : String → String → Bool
precedes j k = elim (array_index j) [
  | none ↦ not (is_some (array_index k))
  | some m ↦ elim (array_index k) [ none ↦ true | some n ↦ not (ltb n m) ]
]

abbrev pub Above : String → Object → Type 0
Above j o = All (λ (e : String × Option String). precedes j e.0 ≡ true) o

-- Each key may stand before all that follow.
abbrev pub Ordered : Object → Type 0
Ordered [] = Unit
Ordered ((k, v) ∷ o) = Above k o × Ordered o

precedes_trans : (j k l : String) → precedes j k ≡ true → precedes k l ≡ true → precedes j l ≡ true
precedes_trans j k l h g = ground arith

Above-trans : (j k : String) (o : Object) → precedes j k ≡ true → Above k o → Above j o
Above-trans j k [] h a = tt
Above-trans j k ((l, v) ∷ o) h (p, a) = (precedes_trans j k l h p, Above-trans j k o h a)

Above-insert :
    (j key : String) (v : Option String) (o : Object)
    → precedes j key ≡ true
    → Above j o
    → Above j (insert key v o)
unfolding insert
Above-insert j key v [] h a = (h, tt)
Above-insert j key v ((k, w) ∷ o) h (p, a) = elim (Bool-cases (before k key)) [
  | inl e ↦ rw e (p, Above-insert j key v o h a)
  | inr e ↦ rw e (h, (p, a))
]

insert-Ordered :
    (key : String) (v : Option String) (o : Object)
    → is_some (array_index key) ≡ true
    → Ordered o
    → Ordered (insert key v o)
unfolding insert
insert-Ordered key v [] h a = (tt, tt)
insert-Ordered key v ((k, w) ∷ o) h (a, rest) = elim (Bool-cases (before k key)) [
  | inl e ↦
      rw e (
        Above-insert k key v o (unfold before in ground (arith, e)) a,
        insert-Ordered key v o h rest,
      )
  | inr e ↦
      let first : precedes key k ≡ true = unfold before in ground (arith, e, h) in
      rw e ((first, Above-trans key k o first a), (a, rest))
]

sort-Ordered : (o : Object) → Ordered (sort (pick true o))
unfolding sort
sort-Ordered [] = tt
sort-Ordered ((k, v) ∷ o) = elim (Bool-cases (is_some (array_index k))) [
  | inl e ↦ rw e (insert-Ordered k v (sort (pick true o)) e (sort-Ordered o))
  | inr e ↦ rw e (sort-Ordered o)
]

Above-pick : (j : String) (o : Object) → Above j (pick false o)
Above-pick j [] = tt
Above-pick j ((k, v) ∷ o) = elim (Bool-cases (is_some (array_index k))) [
  | inl e ↦ rw e (Above-pick j o)
  | inr e ↦ rw e (ground (arith, e), Above-pick j o)
]

pick-Ordered : (o : Object) → Ordered (pick false o)
pick-Ordered [] = tt
pick-Ordered ((k, v) ∷ o) = elim (Bool-cases (is_some (array_index k))) [
  | inl e ↦ rw e (pick-Ordered o)
  | inr e ↦ rw e (Above-pick k o, pick-Ordered o)
]

append-Ordered :
    (o p : Object) → Ordered o → Ordered p → ((j : String) → Above j p) → Ordered (o ++ p)
append-Ordered [] p h g above = g
append-Ordered ((k, v) ∷ o) p (a, h) g above = (
  All-append (λ (e : String × Option String). precedes k e.0 ≡ true) o p a (above k),
  append-Ordered o p h g above,
)

pub entries-Ordered : (o : Object) → Ordered (entries o)
unfolding entries
entries-Ordered o =
    append-Ordered (sort (pick true o)) (pick false o) (sort-Ordered o) (pick-Ordered o)
      (λ j. Above-pick j o)
