-- ===== src/Messages/Display/Laws.antt =====
-- One conversation is shown at a time, and what happens behind the end of the list.
use gl_tomsxp.Common.{
  [], ◌∷◌, All, ap, ◌∙◌, Bool, String, Option-cases, inl, inr, Outcome, All, ◌∷◌, get_elem?_of_ge,
  refl, threw, get_elem?_of_lt, nat_eq_iff, state, length-set, ◌≤◌, get_elem?-set, ◌≡◌, ℕ, ◌<◌,
  some, true, false, List, arith, nat_eq, if◌then◌else◌, get_elem?, set, length, done,
}
use gl_tomsxp.Messages.Display.{mark, select, mark, Talk, Display, toggle_user_activity}

-- Exactly the current conversation is shown, and exactly it is marked "active".
pub record IsValid (s : Display) : Type 0 where
  pub current : s.current_user < length s.users
  pub only :
      (i : ℕ) (t : Talk)
      → get_elem? s.users i ≡ some t
      → (t.show ≡ nat_eq i s.current_user)
        × (t.activity ≡ (if nat_eq i s.current_user then "active" else ""))

module _ (s : Display) (t : Talk) (v : IsValid s)
    (at : get_elem? s.users s.current_user ≡ some t) where
  -- The list once the current conversation is hidden, and once conversation `j` is shown.
  hidden : List Talk
  hidden = set s.users s.current_user (record t { show = false; activity = "" })

  toggle-eq :
      (j : ℕ) (u : Talk)
      → get_elem? hidden j ≡ some u
      → toggle_user_activity j s
        ≡ done (record {
          users = set hidden j (record u { show = true; activity = "active" });
          current_user = j;
        })
  unfolding toggle_user_activity hidden
  toggle-eq j u e = ground arith

  length-hidden : length hidden ≡ length s.users
  unfolding hidden
  length-hidden = length-set s.users s.current_user _

  toggle-threw :
      (j : ℕ)
      → length s.users ≤ j
      → toggle_user_activity j s ≡ threw (record { users = hidden; current_user = j })
  unfolding toggle_user_activity hidden
  toggle-threw j out = ground (arith, length-hidden, get_elem?_of_ge hidden j)

  toggle-stuck :
      (j k : ℕ)
      → length s.users ≤ j
      → let s' : Display = record { users = hidden; current_user = j } in
        toggle_user_activity k s' ≡ threw s'
  unfolding toggle_user_activity
  toggle-stuck j k out = ground (arith, length-hidden, get_elem?_of_ge hidden j)

  module _ (j : ℕ) (within : j < length s.users) where
    toggled-only :
        (u : Talk) (i : ℕ) (w : Talk)
        → get_elem? (set hidden j (record u { show = true; activity = "active" })) i ≡ some w
        → (w.show ≡ nat_eq i j) × (w.activity ≡ (if nat_eq i j then "active" else ""))
    unfolding hidden
    toggled-only u i w e = ground (
      arith,
      length-hidden,
      get_elem?-set hidden j i (record u { show = true; activity = "active" }),
      get_elem?-set s.users s.current_user i (record t { show = false; activity = "" }),
      v.current,
      v.only i w,
      nat_eq_iff i j,
      nat_eq_iff j i,
      nat_eq_iff s.current_user i,
      nat_eq_iff i s.current_user,
    )

    toggle-IsValid :
        (toggle_user_activity j s ≡ done (state (toggle_user_activity j s)))
        × IsValid (state (toggle_user_activity j s))
        × ((state (toggle_user_activity j s)).current_user ≡ j)
    toggle-IsValid =
        let (u, e) = get_elem?_of_lt hidden j (omega (arith, length-hidden)) in
        rw (toggle-eq j u e) (
          refl,
          record {
            current = omega (
              arith,
              length-hidden,
              length-set hidden j (record u { show = true; activity = "active" }),
            );
            only = toggled-only u;
          },
          refl,
        )

-- If exactly the current conversation is shown and marked "active", a click on a conversation of the
-- list does not throw, and afterwards exactly that one is current, shown and marked.
pub toggle_user_activity-IsValid :
    (s : Display) (j : ℕ)
    → IsValid s
    → j < length s.users
    → (toggle_user_activity j s ≡ done (state (toggle_user_activity j s)))
      × IsValid (state (toggle_user_activity j s))
      × ((state (toggle_user_activity j s)).current_user ≡ j)
toggle_user_activity-IsValid s j v within =
    let (t, at) = get_elem?_of_lt s.users s.current_user v.current in
    toggle-IsValid s t v at j within

-- If exactly the current conversation is shown and marked "active", a number behind the end of the
-- list throws when that conversation is hidden already, and then every call throws and changes
-- nothing.
pub toggle_user_activity-stuck :
    (s : Display) (j k : ℕ)
    → IsValid s
    → length s.users ≤ j
    → let s' = state (toggle_user_activity j s) in
      (toggle_user_activity j s ≡ threw s')
      × (s'.current_user ≡ j)
      × (toggle_user_activity k s' ≡ threw s')
toggle_user_activity-stuck s j k v out =
    let (t, at) = get_elem?_of_lt s.users s.current_user v.current in
    rw (toggle-threw s t v at j out) (refl, refl, toggle-stuck s t v at j k out)

-- Clicks on conversations, one after the other.
abbrev pub toggle_all : List ℕ → Display → Display
toggle_all [] s = s
toggle_all (j ∷ js) s = toggle_all js (state (toggle_user_activity j s))

-- The conversation that was clicked last, or `j` if none was.
abbrev pub last_click : ℕ → List ℕ → ℕ
last_click j [] = j
last_click j (k ∷ ks) = last_click k ks

mark-length :
    (show : Bool) (activity : String) (i : ℕ) (s : Display)
    → length (state (mark show activity i s)).users ≡ length s.users
unfolding mark
mark-length show activity i s = elim (Option-cases (get_elem? s.users i)) [
  | inl e ↦ ground arith
  | inr (t, e) ↦
      ground (arith, length-set s.users i (record t { show = show; activity = activity }))
]

select-length :
    (j : ℕ) (o : Outcome Display) → length (state (select j o)).users ≡ length (state o).users
select-length j (threw s) = refl
select-length j (done s) = mark-length true "active" j (record s { current_user = j })

toggle-length :
    (s : Display) (j : ℕ) → length (state (toggle_user_activity j s)).users ≡ length s.users
unfolding toggle_user_activity
toggle-length s j =
    select-length j (mark false "" s.current_user s) ∙ mark-length false "" s.current_user s

-- If exactly the current conversation is shown and marked "active", then after any clicks on
-- conversations of the list exactly the one that was clicked last is current, shown and marked.
pub toggle_all-IsValid :
    (js : List ℕ) (s : Display)
    → IsValid s
    → All (λ j. j < length s.users) js
    → IsValid (toggle_all js s) × ((toggle_all js s).current_user ≡ last_click s.current_user js)
toggle_all-IsValid [] s v h = (v, refl)
toggle_all-IsValid (j ∷ js) s v (within, rest) =
    let (finished, valid, current) = toggle_user_activity-IsValid s j v within in
    let t : Display = state (toggle_user_activity j s) in
    let (valid', current') = toggle_all-IsValid js t valid (rw (toggle-length s j) rest) in
    (valid', current' ∙ ap (λ k. last_click k js) current)
