-- ===== src/Messages/Compose/Runs.antt =====
-- Runs of the page 'addMessage' of src/main/js/modules/messages.js with clicks on the users that it
-- lists, and with the answers to what it sends at any time.
use gl_tomsxp.Common.{
  refl, ◌∙◌, any-append, ◌++◌, some, ◌≡◌, ◌⊎◌, inl, inr, ℕ, String, Option, none, Bool, true, List,
  [], ◌∷◌, any, loose_eq, loose_eq_iff, arith, state, Bool-cases,
}
use gl_tomsxp.Client.{Client}
use gl_tomsxp.Results.Laws.{fresh, push_all-eq-append, push_all-Distinct, Distinct}
use gl_tomsxp.Messages.Compose.{
  search_done, search_started, search_received, user_auto_complete, submit, Found, Compose,
  select_user, send_started, send_done, send_failed, send_answered,
}
use gl_tomsxp.Messages.Compose.Laws.{
  types_name, starts, receives, finishes, submits, writes, is_complete, submit-is_complete, letter,
  Act, act,
}

abbrev pub key : Found → Option String
key r = r.id

-- The user stands in the list displayed.
pub data Displayed (u : Found) : List Found → Type 0 where
  first : {us : List Found} → Displayed u (u ∷ us)
  later : {v : Found} {us : List Found} → Displayed u us → Displayed u (v ∷ us)

pub data Step (c : Client) (s : Compose) : Client → Compose → Type 0 where
  does : (a : Act) → Step c s (act a (c, s)).0 (act a (c, s)).1
  clicks : (u : Found) → Displayed u s.results → Step c s c (state (select_user u s))
  sends : (n : ℕ) → Step c s c (send_started n s)
  sent : Step c s c (send_done s)
  fails : Step c s c (send_failed s)
  answers :
      (node : Option (List (Option Found)))
      → Step c s (send_answered node (c, s)).0 (send_answered node (c, s)).1

pub data Reach (c : Client) (s : Compose) : Client → Compose → Type 0 where
  here : Reach c s c s
  next :
      {c' c'' : Client} {s' s'' : Compose}
      → Reach c s c' s'
      → Step c' s' c'' s''
      → Reach c s c'' s''

-- Some user of the list has this id.
abbrev has_id : Option String → List Found → Bool
has_id id us = any (λ r. loose_eq r.id id) us

-- The receiver, if there is one, is a user of the list, in which no id stands twice.
pub record IsChosen (s : Compose) : Type 0 where
  pub distinct : Distinct key s.results
  pub listed_id : (s.receiver_id ≡ none) ⊎ (has_id s.receiver_id s.results ≡ true)

Displayed-has_id : {u : Found} {us : List Found} → Displayed u us → has_id u.id us ≡ true
Displayed-has_id {u} first = ground (arith, loose_eq_iff u.id u.id)
Displayed-has_id (later d) = ground (arith, Displayed-has_id d)

has_id-Displayed :
    (id : Option String) (us : List Found)
    → has_id id us ≡ true
    → (u : Found) × Displayed u us × (u.id ≡ id)
has_id-Displayed id [] h = absurd (ground arith)
has_id-Displayed id (v ∷ us) h = elim (Bool-cases (loose_eq v.id id)) [
  | inl e ↦ (v, first, (loose_eq_iff v.id id).0 e)
  | inr e ↦ let (u, d, q) = has_id-Displayed id us (ground arith) in (u, later d, q)
]

has_id-append :
    (id : Option String) (us vs : List Found) → has_id id us ≡ true → has_id id (us ++ vs) ≡ true
has_id-append id us vs h = rw (any-append (λ r. loose_eq r.id id) us vs) (ground arith)

search_received-IsChosen :
    (node : Option (List (Option Found))) (s : Compose)
    → IsChosen s
    → IsChosen (search_received node s)
unfolding search_received
search_received-IsChosen none s v = record { distinct = v.distinct; listed_id = v.listed_id }
search_received-IsChosen (some node) s v = record {
  distinct = push_all-Distinct key node s.results v.distinct;
  listed_id = elim v.listed_id [
    | inl e ↦ inl e
    | inr h ↦ inr (
        rw (push_all-eq-append key node s.results)
          (has_id-append s.receiver_id s.results (fresh key s.results node) h))
  ];
}

act-IsChosen : (a : Act) (c : Client) (s : Compose) → IsChosen s → IsChosen (act a (c, s)).1
unfolding user_auto_complete search_started search_done submit
act-IsChosen (types_name name) c s v = record {
  distinct = ground arith;
  listed_id = inl (ground arith);
}
act-IsChosen (starts n) c s v = record { distinct = v.distinct; listed_id = v.listed_id }
act-IsChosen (receives node) c s v = search_received-IsChosen node s v
act-IsChosen finishes c s v = record { distinct = v.distinct; listed_id = v.listed_id }
act-IsChosen submits c s v = elim (Bool-cases (is_complete s)) [
  | inl e ↦ rw e record { distinct = v.distinct; listed_id = v.listed_id }
  | inr e ↦ rw e record { distinct = v.distinct; listed_id = v.listed_id }
]
act-IsChosen (writes content) c s v = record { distinct = v.distinct; listed_id = v.listed_id }

select_user-fields :
    (u : Found) (s : Compose)
    → ((state (select_user u s)).results ≡ s.results)
      × ((state (select_user u s)).receiver_id ≡ u.id)
unfolding select_user
select_user-fields u s = ground arith

send_answered-fields :
    (node : Option (List (Option Found))) (c : Client) (s : Compose)
    → ((send_answered node (c, s)).1.results ≡ s.results)
      × ((send_answered node (c, s)).1.receiver_id ≡ s.receiver_id)
unfolding send_answered
send_answered-fields none c s = (refl, refl)
send_answered-fields (some []) c s = (refl, refl)
send_answered-fields (some (m ∷ ms)) c s = (refl, refl)

Step-IsChosen :
    {c : Client} {s : Compose} {c' : Client} {s' : Compose}
    → Step c s c' s'
    → IsChosen s
    → IsChosen s'
unfolding send_started send_done send_failed
Step-IsChosen {c} {s} (does a) v = act-IsChosen a c s v
Step-IsChosen {c} {s} (clicks u d) v =
    let (same, id) = select_user-fields u s in
    record { distinct = rw same v.distinct; listed_id = inr (rw (same, id) (Displayed-has_id d)) }
Step-IsChosen (sends n) v = record { distinct = v.distinct; listed_id = v.listed_id }
Step-IsChosen sent v = record { distinct = v.distinct; listed_id = v.listed_id }
Step-IsChosen fails v = record { distinct = v.distinct; listed_id = v.listed_id }
Step-IsChosen {c} {s} (answers node) v =
    let (same, id) = send_answered-fields node c s in
    record { distinct = rw same v.distinct; listed_id = rw (same, id) v.listed_id }

Reach-IsChosen :
    {c : Client} {s : Compose} {c' : Client} {s' : Compose}
    → Reach c s c' s'
    → IsChosen s
    → IsChosen s'
Reach-IsChosen here v = v
Reach-IsChosen (next r step) v = Step-IsChosen step (Reach-IsChosen r v)

-- In every order of keys, clicks on users that are displayed, nodes and answers, from a page with no
-- receiver and no user listed twice: a press on the button "send" sends nothing, or one message,
-- and then its receiver is a user that is displayed.
pub Reach-submit :
    {c c' : Client} {s s' : Compose}
    → s.receiver_id ≡ none
    → Distinct key s.results
    → Reach c s c' s'
    → ((submit (c', s')).0.sent ≡ c'.sent)
      ⊎ (((submit (c', s')).0.sent ≡ letter c' s' ∷ c'.sent)
          × (u : Found) × Displayed u s'.results
          × (u.id ≡ s'.receiver_id))
Reach-submit {c} {c'} {s} {s'} e d r =
    let v = Reach-IsChosen r record { distinct = d; listed_id = inl e } in
    let (p, _, _) = submit-is_complete c' s' in
    elim (Bool-cases (is_complete s')) [
      | inl complete ↦ elim v.listed_id [
        | inl no_id ↦ absurd (ground arith)
        | inr h ↦
            let (u, shown, id) = has_id-Displayed s'.receiver_id s'.results h in
            inr (p ∙ ground arith, u, shown, id)
      ]
      | inr incomplete ↦ inl (p ∙ ground arith)
    ]
