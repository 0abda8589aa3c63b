-- ===== src/Server/Contracts/Find.antt =====
-- How a contract is found by its id after a method of src/main/java/controller/Contracts.java that does
-- not concern it.
use mathlib.Core.Option.{none-ne-some, some-injective}
use gl_tomsxp.Common.{
  sym, ap, ◌∙◌, refl, eq_iff, Bool-cases, inl, inr, arith, subst, ◌==◌, ◌≡◌, String, Option, none,
  some, Bool, false, List, [], ◌∷◌, ◌++◌, ℕ,
}
use gl_tomsxp.Server.Contracts.{
  Contract, Draft, find, replace, remove, deleted, names_of, copies, persist, stored_title, add,
  delete,
}

find-append :
    (id : String) (table new : List Contract) (c : Contract)
    → find id table ≡ some c
    → find id (table ++ new) ≡ some c
find-append id [] new c h = absurd (none-ne-some c h)
find-append id (d ∷ table) new c h = ground (arith, h, find-append id table new c)

pub persist-find :
    (user : Option String) (new : List Contract) (table table' : List Contract) (id : String)
    (c : Contract)
    → persist user new table ≡ some table'
    → find id table ≡ some c
    → find id table' ≡ some c
persist-find user [] table table' id c h k =
    subst (λ x. find id x ≡ some c) (some-injective _ _ h) k
persist-find none (d ∷ new) table table' id c h k = absurd (none-ne-some table' h)
persist-find (some u) (d ∷ new) table table' id c h k =
    subst (λ x. find id x ≡ some c) (some-injective _ _ h) (find-append id table (d ∷ new) c k)

pub find-replace :
    (k id : String) (d : Contract) (table : List Contract)
    → (d.id == id) ≡ false
    → (k == id) ≡ false
    → find id (replace k d table) ≡ find id table
find-replace k id d [] h g = refl
find-replace k id d (c ∷ table) h g = elim (Bool-cases (c.id == k)) [
  | inl e ↦ rw (e, h, (eq_iff c.id k).0 e, g) refl
  | inr e ↦ rw e (ground (arith, find-replace k id d table h g))
]

pub find-id :
    (id : String) (table : List Contract) (c : Contract) → find id table ≡ some c → c.id ≡ id
find-id id [] c h = absurd (none-ne-some c h)
find-id id (d ∷ table) c h = elim (Bool-cases (d.id == id)) [
  | inl e ↦ ap (λ x. x.id) (sym (some-injective d c (ground (arith, e, h)))) ∙ (eq_iff d.id id).0 e
  | inr e ↦ find-id id table c (ground (arith, e, h))
]

find-remove :
    (k id : String) (table : List Contract)
    → (k == id) ≡ false
    → find id (remove k table) ≡ find id table
find-remove k id [] g = refl
find-remove k id (c ∷ table) g = elim (Bool-cases (c.id == k)) [
  | inl e ↦ rw (e, (eq_iff c.id k).0 e, g) refl
  | inr e ↦ rw e (ground (arith, find-remove k id table g))
]

pub delete-find :
    (user : Option String) (k id : String) (a b : List Contract) (r : Bool) (c : Contract)
    → delete user k a ≡ some (r, b)
    → (k == id) ≡ false
    → find id a ≡ some c
    → find id b ≡ some c
unfolding delete
delete-find none k id a b r c e g m =
    subst (λ x. find id x ≡ some c) (ap (λ x. x.1) (some-injective _ _ e)) m
delete-find (some u) k id a b r c e g m = found (find k a) e
  where
    kept : a ≡ b → find id b ≡ some c
    kept e' = subst (λ x. find id x ≡ some c) e' m

    found : (o : Option Contract) → deleted u k o a ≡ some (r, b) → find id b ≡ some c
    found none e' = absurd (none-ne-some (r, b) e')
    found (some w) e' = elim (Bool-cases (w.userid == u)) [
      | inl o ↦
          let gone : remove k a ≡ b = ground (arith, o, e') in
          subst (λ x. find id x ≡ some c) gone (find-remove k id a g ∙ m)
      | inr o ↦ kept (ground (arith, o, e'))
    ]

pub add-find :
    (is_empty : String → Bool) (nick_of : String → Option String) (fresh : ℕ → String)
    (user : Option String) (d : Draft) (id : String) (a b : List Contract) (c : Contract)
    → add is_empty nick_of fresh user d a ≡ some b
    → find id a ≡ some c
    → find id b ≡ some c
unfolding add
add-find is_empty nick_of fresh user d id a b c e m = with_parties d.parties e
  where
    title : Option String
    title = stored_title is_empty d.title

    with_names :
        (ps : List String) (o : Option (List (String × String)))
        → elim o [ none ↦ none | some names ↦ persist user (copies fresh 0 title d names ps ps) a ]
          ≡ some b
        → find id b ≡ some c
    with_names ps none h = absurd (none-ne-some b h)
    with_names ps (some names) h =
        persist-find user (copies fresh 0 title d names ps ps) a b id c h m

    with_parties :
        (o : Option (List String))
        → elim o [
          | none ↦ none
          | some ps ↦ elim (names_of nick_of ps) [
            | none ↦ none
            | some names ↦ persist user (copies fresh 0 title d names ps ps) a
          ]
        ]
          ≡ some b
        → find id b ≡ some c
    with_parties none h = absurd (none-ne-some b h)
    with_parties (some ps) h = with_names ps (names_of nick_of ps) h
