-- ===== src/Server/Contracts/Laws.antt =====
-- What the methods of src/main/java/controller/Contracts.java leave of a contract that is settled.
use mathlib.Core.Bool.{true≢false}
use mathlib.Core.Option.{none-ne-some, some-injective}
use gl_tomsxp.Common.{
  [], ◌∷◌, ◌∷◌, state, ◌>>=◌, sym, ap, ◌∙◌, refl, eq_iff, Bool-cases, inl, inr, arith, subst, ◌==◌,
  ◌≡◌, ◌≢◌, String, Option, none, some, Bool, true, false, List,
}
use gl_tomsxp.Server.Contracts.Find.{find-replace, find-id, delete-find, add-find}
use gl_tomsxp.Server.Contracts.Edited.{Edited, left, revised, Pairs, empty, both, edit-Pairs}
use gl_tomsxp.Server.Contracts.{
  lists, resign, get_all, is_accept, committed, listed, Status, nowhere, signing, Contract, Draft,
  is_neutral, find, settle, establish, accepted, signed, sign, declined, cancel, Step, adds, edits,
  deletes, signs, cancels, Along, here, next,
}

-- Nothing is left to sign or to cancel.
abbrev pub is_over : Status → Bool
is_over nowhere = false
is_over signing = false
is_over _ = true

-- The contract is over, and its owner has accepted or refused it.
abbrev pub IsSettled : Contract → Type 0
IsSettled c = (is_over c.status ≡ true) × (is_neutral c.wish ≡ false)

-- What a method of one contract does, once the contract is found.
abbrev handle :
    (Contract → Option (Option Contract))
    → String
    → Option Contract
    → List Contract
    → Option (Bool × List Contract)
handle f k none a = none
handle f k (some c) a = settle k (f c) a

-- A method that changes no id and leaves what is settled.
record IsTame (f : Contract → Option (Option Contract)) : Type 0 where
  keeps_id : (c d : Contract) → f c ≡ some (some d) → d.id ≡ c.id
  leaves : (c : Contract) → IsSettled c → f c ≡ some none

settle-find :
    (k id : String) (o : Option (Option Contract)) (a b : List Contract) (r : Bool) (c : Contract)
    → ((d : Contract) → o ≡ some (some d) → d.id ≡ k)
    → settle k o a ≡ some (r, b)
    → (k == id) ≡ false
    → find id a ≡ some c
    → find id b ≡ some c
settle-find k id none a b r c h e g m = absurd (none-ne-some (r, b) e)
settle-find k id (some none) a b r c h e g m =
    subst (λ x. find id x ≡ some c) (ap (λ x. x.1) (some-injective _ _ e)) m
settle-find k id (some (some d)) a b r c h e g m =
    subst (λ x. find id x ≡ some c) (ap (λ x. x.1) (some-injective _ _ e))
      (find-replace k id d a (rw (h d refl) g) g ∙ m)

handle-find :
    (f : Contract → Option (Option Contract)) (k id : String) (a b : List Contract) (r : Bool)
    (c : Contract)
    → IsTame f
    → handle f k (find k a) a ≡ some (r, b)
    → find id a ≡ some c
    → IsSettled c
    → find id b ≡ some c
handle-find f k id a b r c tame e m s = elim (Bool-cases (k == id)) [
  | inl g ↦
      let same : find k a ≡ some c = ap (λ x. find x a) ((eq_iff k id).0 g) ∙ m in
      let left : settle k (some none) a ≡ some (r, b) =
        ap (λ o. settle k o a) (sym (tame.leaves c s)) ∙ ap (λ o. handle f k o a) (sym same) ∙ e in
      subst (λ x. find id x ≡ some c) (ap (λ x. x.1) (some-injective _ _ left)) m
  | inr g ↦ apart (find k a) refl e g
]
  where
    apart :
        (o : Option Contract)
        → find k a ≡ o
        → handle f k o a ≡ some (r, b)
        → (k == id) ≡ false
        → find id b ≡ some c
    apart none h e' g = absurd (none-ne-some (r, b) e')
    apart (some d) h e' g =
        settle-find k id (f d) a b r c (λ x y. tame.keeps_id d x y ∙ find-id k a d h) e' g m

establish-id :
    (start : Contract → Option (Status × String)) (user : Option String) (c d : Contract)
    → establish start user c ≡ some (some d)
    → d.id ≡ c.id
establish-id start none c d h = absurd (none-ne-some (some d) h)
establish-id start (some u) c d h = started (start c) h
  where
    started :
        (o : Option (Status × String))
        → elim o [
          | none ↦ none
          | some (status, establishement) ↦
              some (some (record c { status = status; establishement_data = some establishement }))
        ]
          ≡ some (some d)
        → d.id ≡ c.id
    started none g = absurd (none-ne-some (some d) g)
    started (some (status, establishement)) g =
        ap (λ x. x.id) (sym (some-injective _ _ (some-injective _ _ g)))

signed-IsTame :
    (start : Contract → Option (Status × String)) (user : Option String)
    → IsTame (λ c. signed start user c c.status)
signed-IsTame start user = record {
  keeps_id = λ c d h. kept c d c.status h;
  leaves = λ c s. left c c.status s.0;
}
  where
    kept : (c d : Contract) (s : Status) → signed start user c s ≡ some (some d) → d.id ≡ c.id
    kept c d nowhere h = establish-id start user (accepted c) d h
    kept c d _ h = absurd (none-ne-some d (some-injective _ _ h))

    left : (c : Contract) (s : Status) → is_over s ≡ true → signed start user c s ≡ some none
    left c nowhere h = absurd (true≢false (sym h))
    left c signing h = absurd (true≢false (sym h))
    left c _ h = refl

declined-IsTame : IsTame (λ c. declined c c.status)
declined-IsTame = record {
  keeps_id = λ c d h. kept c d c.status h;
  leaves = λ c s. left c c.status s.0;
}
  where
    kept : (c d : Contract) (s : Status) → declined c s ≡ some (some d) → d.id ≡ c.id
    kept c d nowhere h = ap (λ x. x.id) (sym (some-injective _ _ (some-injective _ _ h)))
    kept c d signing h = ap (λ x. x.id) (sym (some-injective _ _ (some-injective _ _ h)))
    kept c d _ h = absurd (none-ne-some d (some-injective _ _ h))

    left : (c : Contract) (s : Status) → is_over s ≡ true → declined c s ≡ some none
    left c nowhere h = absurd (true≢false (sym h))
    left c signing h = absurd (true≢false (sym h))
    left c _ h = refl

Edited-find :
    (d : Draft) (names : List (String × String)) (id : String) {a b : List Contract} (c : Contract)
    → Pairs (Edited d names) a b
    → find id a ≡ some c
    → IsSettled c
    → find id b ≡ some c
Edited-find d names id c empty m s = m
Edited-find d names id c (both {c = w} {a} {b} left p) m s = elim (Bool-cases (w.id == id)) [
  | inl e ↦ rw e (ground (arith, e, m))
  | inr e ↦ rw e (Edited-find d names id c p (ground (arith, e, m)) s)
]
Edited-find d names id c (both {c = w} {a} {b} (revised ps h k n t) p) m s =
    elim (Bool-cases (w.id == id)) [
      | inl e ↦
          let same : w ≡ c = some-injective w c (ground (arith, e, m)) in
          absurd (true≢false (sym n ∙ ap (λ x. is_neutral x.wish) same ∙ s.1))
      | inr e ↦ rw e (Edited-find d names id c p (ground (arith, e, m)) s)
    ]

-- The steps but for the deletion of the contract of that id.
abbrev pub Spares : String → (a b : List Contract) → Step a b → Type 0
Spares id _ _ (deletes user k r e) = k ≢ id
Spares id _ _ _ = Unit

unequal : {k id : String} → k ≢ id → (k == id) ≡ false
unequal {k} {id} h = elim (Bool-cases (k == id)) [
  | inl e ↦ absurd (h ((eq_iff k id).0 e))
  | inr e ↦ e
]

sign-find :
    (start : Contract → Option (Status × String)) (user : Option String) (k id : String) (r : Bool)
    (a b : List Contract) (c : Contract)
    → sign start user k a ≡ some (r, b)
    → find id a ≡ some c
    → IsSettled c
    → find id b ≡ some c
unfolding sign
sign-find start user k id r a b c e m s =
    handle-find (λ x. signed start user x x.status) k id a b r c (signed-IsTame start user)
      (handled (find k a) e) m s
  where
    handled :
        (o : Option Contract)
        → elim o [ none ↦ none | some x ↦ settle k (signed start user x x.status) a ] ≡ some (r, b)
        → handle (λ x. signed start user x x.status) k o a ≡ some (r, b)
    handled none h = h
    handled (some x) h = h

cancel-find :
    (k id : String) (r : Bool) (a b : List Contract) (c : Contract)
    → cancel k a ≡ some (r, b)
    → find id a ≡ some c
    → IsSettled c
    → find id b ≡ some c
unfolding cancel
cancel-find k id r a b c e m s =
    handle-find (λ x. declined x x.status) k id a b r c declined-IsTame (handled (find k a) e) m s
  where
    handled :
        (o : Option Contract)
        → elim o [ none ↦ none | some x ↦ settle k (declined x x.status) a ] ≡ some (r, b)
        → handle (λ x. declined x x.status) k o a ≡ some (r, b)
    handled none h = h
    handled (some x) h = h

resign-find :
    (start : Contract → Option (Status × String)) (user : Option String) (id : String)
    (c : Contract) (cs a : List Contract)
    → find id a ≡ some c
    → IsSettled c
    → find id (state (resign start user cs a)) ≡ some c
unfolding resign
resign-find start user id c [] a m s = m
resign-find start user id c (x ∷ cs) a m s = elim (Bool-cases (is_accept x.wish)) [
  | inl e ↦
      rw e (signs_again (sign start user x.id a) refl (λ b h. resign-find start user id c cs b h s))
  | inr e ↦ rw e (resign-find start user id c cs a m s)
]
  where
    signs_again :
        (o : Option (Bool × List Contract))
        → sign start user x.id a ≡ o
        → ((b : List Contract)
            → find id b ≡ some c
            → find id (state (resign start user cs b)) ≡ some c)
        → find id (state (committed o a >>= resign start user cs)) ≡ some c
    signs_again none h later = m
    signs_again (some (r, b)) h later = later b (sign-find start user x.id id r a b c h m s)

get_all-find :
    (start : Contract → Option (Status × String)) (user : Option String) (id : String)
    (c : Contract) (a : List Contract)
    → find id a ≡ some c
    → IsSettled c
    → find id (state (get_all start user a)) ≡ some c
unfolding get_all
get_all-find start none id c a m s = m
get_all-find start (some u) id c a m s = resign-find start (some u) id c (listed u a) a m s

Step-find :
    (id : String) (c : Contract) {a b : List Contract} (step : Step a b)
    → IsSettled c
    → Spares id a b step
    → find id a ≡ some c
    → find id b ≡ some c
Step-find id c {a} {b} (adds is_empty nick_of fresh user d e) s q m =
    add-find is_empty nick_of fresh user d id a b c e m
Step-find id c {a} {b} (edits nick_of d e) s q m =
    let (names, _, pairs) = edit-Pairs nick_of d a b e in Edited-find d names id c pairs m s
Step-find id c {a} {b} (deletes user k r e) s q m = delete-find user k id a b r c e (unequal q) m
Step-find id c {a} {b} (signs start user k r e) s q m = sign-find start user k id r a b c e m s
Step-find id c {a} {b} (cancels k r e) s q m = cancel-find k id r a b c e m s
Step-find id c {a} (lists start user) s q m = get_all-find start user id c a m s

-- A contract that is cancelled, finalized or resolving, and that its owner has accepted or refused,
-- stays exactly as it is in every sequence of additions, edits, listings, signatures and cancellations,
-- and of deletions of other contracts, whatever the signing protocol does to the contracts it is started
-- for.
pub Along-find :
    (id : String) (c : Contract) {a b : List Contract}
    → Along (Spares id) a b
    → IsSettled c
    → find id a ≡ some c
    → find id b ≡ some c
Along-find id c here s m = m
Along-find id c (next r step q) s m = Step-find id c step s q (Along-find id c r s m)
