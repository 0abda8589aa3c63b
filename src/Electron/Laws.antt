-- ===== src/Electron/Laws.antt =====
-- The window of the application in every order of events, and which certificates are accepted
-- (src/main/js/main-electron.js).
use gl_tomsxp.Common.{
  Bool-cases, ◌≡◌, refl, ap, ℕ, String, Bool, true, [], ◌∷◌, arith, eq_iff, any, ◌≢◌, ◌↔◌, ◌⊎◌, inl,
  inr, concat, nat_eq,
}
use text.Mathlib.Text.{starts_with}
use text.Mathlib.TextEquality.{starts_with_iff}
use text.Mathlib.TextPositions.{starts_with-append}
use text.Mathlib.TextBridge.{IsPrefix}
use gl_tomsxp.Electron.{
  null, window, Main, initial_main, create_window, closed, window_all_closed, activate,
  certificate_error,
}

abbrev pub is_open : ℕ → Main → Bool
is_open n m = any (λ w. nat_eq w n) m.windows

-- The events that electron delivers: 'ready' once, before all else, 'closed' for a window that is
-- open, 'window-all-closed' when none is, and 'activate' at any time after 'ready'.
pub data Reach (platform : String) : Main → Type 0 where
  ready : Reach platform (create_window (initial_main platform))
  closes : {m : Main} (n : ℕ) → Reach platform m → is_open n m ≡ true → Reach platform (closed n m)
  all_closed : {m : Main} → Reach platform m → m.windows ≡ [] → Reach platform (window_all_closed m)
  activates : {m : Main} → Reach platform m → Reach platform (activate m)

-- `win` is the one open window, or null if none is open.
abbrev pub IsTracked : Main → Type 0
IsTracked m =
    ((n : ℕ) × (m.win ≡ window n) × (m.windows ≡ n ∷ [])) ⊎ ((m.win ≡ null) × (m.windows ≡ []))

closed-IsTracked : (n : ℕ) (m : Main) → is_open n m ≡ true → IsTracked m → IsTracked (closed n m)
unfolding closed
closed-IsTracked n m h (inl (k, e, e')) =
    inr (refl, ground (arith, ap (λ ws. any (λ w. nat_eq w n) ws) e'))
closed-IsTracked n m h (inr (e, e')) = inr (refl, ground arith)

activate-IsTracked : (m : Main) → IsTracked m → IsTracked (activate m)
unfolding activate
activate-IsTracked m (inl (k, e, e')) = inl (k, ground arith, ground arith)
activate-IsTracked m (inr (e, e')) = inl (m.created, ground arith, ground arith)

-- After 'ready' there is at most one window, in every order of events; the handle is that window
-- while it is open, and null once it is closed.
pub Reach-IsTracked : {platform : String} {m : Main} → Reach platform m → IsTracked m
unfolding create_window initial_main window_all_closed
Reach-IsTracked ready = inl (0, refl, refl)
Reach-IsTracked (closes {m = m} n r h) = closed-IsTracked n m h (Reach-IsTracked r)
Reach-IsTracked (all_closed {m = m} r e) = let ih = Reach-IsTracked r in ground arith
Reach-IsTracked (activates {m = m} r) = activate-IsTracked m (Reach-IsTracked r)

-- From every reachable state 'activate' leads to a state with exactly one open window, whose handle
-- is at hand, on every platform; if a window was open already it is that one.
pub activate-window :
    {platform : String} {m : Main}
    → Reach platform m
    → Reach platform (activate m)
      × ((n : ℕ) × ((activate m).win ≡ window n) × ((activate m).windows ≡ n ∷ []))
      × ((n : ℕ) → m.win ≡ window n → activate m ≡ m)
unfolding activate
activate-window {m = m} r = (
  activates r,
  elim (Reach-IsTracked r) [
    | inl (k, e, e') ↦ (k, ground arith, ground arith)
    | inr (e, e') ↦ (m.created, ground arith, ground arith)
  ],
  λ n e. ground arith,
)

-- The platform stays as it is, and on a Mac the application keeps running, in every order of events.
pub Reach-running :
    {platform : String} {m : Main}
    → Reach platform m
    → (m.platform ≡ platform) × ((m.running ≡ true) ⊎ (platform ≢ "darwin"))
unfolding create_window initial_main window_all_closed closed activate
Reach-running ready = (refl, inl refl)
Reach-running (closes n r h) = Reach-running r
Reach-running {platform} (all_closed {m = m} r e) =
    let (same, ih) = Reach-running r in ground (arith, eq_iff m.platform "darwin")
Reach-running (activates r) = let (same, ih) = Reach-running r in ground arith

-- Opening the application again when its window was closed gives a new window.
pub activate-closed :
    (m : Main) (n : ℕ) → m.win ≡ window n → (activate (closed n m)).win ≡ window m.created
unfolding activate closed
activate-closed m n e = refl

accepted-eq :
    (url : String) → (certificate_error url).accepted ≡ starts_with url "https://localhost"
unfolding certificate_error
accepted-eq url = elim (Bool-cases (starts_with url "https://localhost")) [
  | inl e ↦ rw e
  | inr e ↦ rw e
]

-- The certificate of a page is accepted, against the judgement of the browser, exactly if its URL
-- begins with "https://localhost".
pub certificate_error_iff :
    (url : String) → ((certificate_error url).accepted ≡ true) ↔ IsPrefix "https://localhost" url
certificate_error_iff url = rw accepted-eq (starts_with_iff url "https://localhost")

-- The URL may go on with anything behind that: with the name of another host, as in
-- "https://localhost.example.org".
pub certificate_error-suffix :
    (rest : String)
    → certificate_error (concat "https://localhost" rest)
      ≡ record { accepted = true; default_prevented = true }
unfolding certificate_error
certificate_error-suffix rest = rw (starts_with-append "https://localhost" rest)
