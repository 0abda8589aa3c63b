-- ===== src/Server/Contracts/Edited.antt =====
-- What an edit leaves of the contracts (`edit` of src/main/java/controller/Contracts.java).
use gl_tomsxp.Common.{
  sym, ap, ◌∙◌, refl, arith, subst, loose_eq_iff, ◌≡◌, String, Option, none, some, Bool, true,
  false, List, [], ◌∷◌, ◌&&◌, if◌then◌else◌,
}
use mathlib.Core.Bool.{true≢false}
use mathlib.Core.Option.{none-ne-some, some-injective}
use gl_tomsxp.Server.Contracts.{
  Contract, Draft, is_neutral, names_if, contains, revise, has_title, revise_all, edit,
}

-- An edit leaves a contract as it is, or gives it new clauses, parties and names and nothing else; that
-- only if it has the title that was sent, is neutral, and has the user that was sent among its parties.
pub data Edited (d : Draft) (names : List (String × String)) (c : Contract)
    : Contract → Type 0 where
  left : Edited d names c c
  revised :
      (ps : List String)
      → c.parties ≡ some ps
      → contains d.userid ps ≡ true
      → is_neutral c.wish ≡ true
      → c.title ≡ d.title
      → Edited d names c (record c { clauses = d.clauses; parties = d.parties; names = names })

-- Two tables, contract by contract.
pub data Pairs (R : Contract → Contract → Type 0) : List Contract → List Contract → Type 0 where
  empty : Pairs R [] []
  both : {c c' : Contract} {a b : List Contract} → R c c' → Pairs R a b → Pairs R (c ∷ a) (c' ∷ b)

-- What is done to one contract of the table.
abbrev touch : Draft → List (String × String) → Contract → Option Contract
touch d names c = if has_title d.title c then revise d names c else some c

has_title-title : (t : Option String) (c : Contract) → has_title t c ≡ true → c.title ≡ t
has_title-title none c h = absurd (true≢false (sym h))
has_title-title (some t) c h = sym ((loose_eq_iff (some t) c.title).0 h)

touch-Edited :
    (d : Draft) (names : List (String × String)) (c c' : Contract)
    → touch d names c ≡ some c'
    → Edited d names c c'
touch-Edited d names c c' h = titled (has_title d.title c) refl h
  where
    kept : c ≡ c' → Edited d names c c'
    kept e = subst (Edited d names c) e left

    changed :
        (ps : List String) (b : Bool)
        → c.parties ≡ some ps
        → (contains d.userid ps && is_neutral c.wish) ≡ b
        → c.title ≡ d.title
        → (if b
            then record c {
              clauses = d.clauses;
              parties = d.parties;
              title = d.title;
              names = names;
            }
            else c)
          ≡ c'
        → Edited d names c c'
    changed ps false e g t k = kept k
    changed ps true e g t k =
        subst (Edited d names c)
          (ap (λ x. record c { clauses = d.clauses; parties = d.parties; title = x; names = names })
              t
            ∙ k)
          (revised ps e (ground (arith, g)) (ground (arith, g)) t)

    found :
        (o : Option (List String))
        → c.parties ≡ o
        → c.title ≡ d.title
        → elim o [
          | none ↦ none
          | some ps ↦ some (
              if contains d.userid ps && is_neutral c.wish
              then record c {
                clauses = d.clauses;
                parties = d.parties;
                title = d.title;
                names = names;
              }
              else c)
        ]
          ≡ some c'
        → Edited d names c c'
    found none e t g = absurd (none-ne-some c' g)
    found (some ps) e t g =
        changed ps (contains d.userid ps && is_neutral c.wish) e refl t (some-injective _ _ g)

    titled :
        (b : Bool)
        → has_title d.title c ≡ b
        → (if b then revise d names c else some c) ≡ some c'
        → Edited d names c c'
    titled true e g = found c.parties refl (has_title-title d.title c e) g
    titled false e g = kept (some-injective _ _ g)

revise_all-Pairs :
    (d : Draft) (names : List (String × String)) (a b : List Contract)
    → revise_all d names a ≡ some b
    → Pairs (Edited d names) a b
unfolding revise_all
revise_all-Pairs d names [] b h = subst (Pairs (Edited d names) []) (some-injective _ _ h) empty
revise_all-Pairs d names (c ∷ a) b h =
    joined (touch d names c) (revise_all d names a) (touch-Edited d names c)
      (revise_all-Pairs d names a) h
  where
    joined :
        (o : Option Contract) (rest : Option (List Contract))
        → ((x : Contract) → o ≡ some x → Edited d names c x)
        → ((t : List Contract) → rest ≡ some t → Pairs (Edited d names) a t)
        → elim o [
          | none ↦ none
          | some c' ↦ elim rest [ none ↦ none | some table ↦ some (c' ∷ table) ]
        ]
          ≡ some b
        → Pairs (Edited d names) (c ∷ a) b
    joined none rest f g e = absurd (none-ne-some b e)
    joined (some x) none f g e = absurd (none-ne-some b e)
    joined (some x) (some t) f g e =
        subst (Pairs (Edited d names) (c ∷ a)) (some-injective _ _ e) (both (f x refl) (g t refl))

-- An edit that does not throw leaves every contract of the table as it is, or gives it new clauses,
-- parties and names and nothing else; that only if it has the title that was sent, is neutral, and has
-- the user that was sent among its parties. So no edit changes a title, a wish or a status.
pub edit-Pairs :
    (nick_of : String → Option String) (d : Draft) (a b : List Contract)
    → edit nick_of d a ≡ some b
    → (names : List (String × String)) × (names_if nick_of d.parties ≡ some names)
      × Pairs (Edited d names) a b
unfolding edit
edit-Pairs nick_of d a b h = named (names_if nick_of d.parties) refl h
  where
    named :
        (o : Option (List (String × String)))
        → names_if nick_of d.parties ≡ o
        → elim o [ none ↦ none | some names ↦ revise_all d names a ] ≡ some b
        → (names : List (String × String)) × (names_if nick_of d.parties ≡ some names)
          × Pairs (Edited d names) a b
    named none e g = absurd (none-ne-some b g)
    named (some names) e g = (names, e, revise_all-Pairs d names a b g)
