-- ===== src/Session/Enter.antt =====
-- A case rule for the transition that is pending (`$state.go` of the pages in src/main/js/modules).
use gl_tomsxp.Common.{Option, none, some}
use gl_tomsxp.Client.{Client, Page}
use gl_tomsxp.Session.{enter, open_page}

enter_from {ℓ} :
    (P : Option Page → Client → Type ℓ) (c : Client) (o : Option Page)
    → P none c
    → ((p : Page) → P (some p) (open_page p (record c { page = p; pending = none })))
    → P o (elim o [ none ↦ c | some p ↦ open_page p (record c { page = p; pending = none }) ])
enter_from P c none h k = h
enter_from P c (some p) h k = k p

-- What holds of the client with nothing pending, and of it after each page that may be pending, holds
-- once the transition is complete.
pub enter-elim {ℓ} :
    (P : Option Page → Client → Type ℓ) (c : Client)
    → P none c
    → ((p : Page) → P (some p) (open_page p (record c { page = p; pending = none })))
    → P c.pending (enter c)
unfolding enter
enter-elim P c h k = enter_from P c c.pending h k
