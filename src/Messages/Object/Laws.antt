-- ===== src/Messages/Object/Laws.antt =====
-- Looking a key up in an object, after an assignment and in the order of `for … in`.
use gl_tomsxp.Common.{
  ◌≡◌, refl, String, Option, none, some, Bool, true, false, [], ◌∷◌, ◌++◌, ◌==◌, eq_iff, arith,
  is_some, if◌then◌else◌,
}
use gl_tomsxp.Messages.Object.{
  Object, same, write, put, array_index, pick, before, insert, sort, entries,
}

abbrev pub lookup : String → Object → Option (Option String)
lookup key [] = none
lookup key ((k, v) ∷ o) = if k == key then some v else lookup key o

pub lookup-write :
    (j key : String) (v : Option String) (o : Object)
    → lookup key (write j v o) ≡ (if j == key then some v else lookup key o)
unfolding write
lookup-write j key v [] = refl
lookup-write j key v ((k, w) ∷ o) =
    ground (arith, eq_iff j key, eq_iff k j, eq_iff k key, lookup-write j key v o)

pub lookup-put :
    (j key : String) (v : Option String) (o : Object)
    → lookup key (put j v o)
      ≡ (if j == "__proto__" then lookup key o else if j == key then some v else lookup key o)
unfolding put
lookup-put j key v o = ground (arith, lookup-write j key v o)

pub lookup-pick :
    (indexed : Bool) (key : String) (o : Object)
    → lookup key (pick indexed o)
      ≡ (if same indexed (is_some (array_index key)) then lookup key o else none)
lookup-pick indexed key [] = ground arith
lookup-pick indexed key ((k, v) ∷ o) = ground (arith, eq_iff k key, lookup-pick indexed key o)

pub lookup-insert :
    (j key : String) (v : Option String) (o : Object)
    → lookup key (insert j v o) ≡ (if j == key then some v else lookup key o)
unfolding insert before
lookup-insert j key v [] = refl
lookup-insert j key v ((k, w) ∷ o) =
    ground (arith, eq_iff j key, eq_iff k key, lookup-insert j key v o)

pub lookup-sort : (key : String) (o : Object) → lookup key (sort o) ≡ lookup key o
unfolding sort
lookup-sort key [] = refl
lookup-sort key ((k, v) ∷ o) = ground (arith, lookup-insert k key v (sort o), lookup-sort key o)

pub lookup-append :
    (key : String) (o p : Object)
    → lookup key (o ++ p) ≡ (elim (lookup key o) [ none ↦ lookup key p | some v ↦ some v ])
lookup-append key [] p = refl
lookup-append key ((k, v) ∷ o) p = ground (arith, lookup-append key o p)

-- The order of `for … in` leaves out no key, makes none up, and keeps what is stored.
pub lookup-entries : (key : String) (o : Object) → lookup key (entries o) ≡ lookup key o
unfolding entries
lookup-entries key o = ground (
  arith,
  lookup-append key (sort (pick true o)) (pick false o),
  lookup-sort key (pick true o),
  lookup-pick true key o,
  lookup-pick false key o,
)
