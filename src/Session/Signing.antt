-- ===== src/Session/Signing.antt =====
-- What a press on the buttons "sign" and "decline" of a contract's page
-- (src/main/js/modules/contracts.js) does on the server (src/main/java/controller/Contracts.java).
use gl_tomsxp.Common.{◌≡◌, refl, String, Option, none, some, List, ◌∷◌}
use gl_tomsxp.Client.{Client, Request}
use gl_tomsxp.Contracts.View
use gl_tomsxp.Contracts.View.{View}
use gl_tomsxp.Server.Api.{Handler, served, dispatch, request_path, path_param}
use gl_tomsxp.Server.Contracts.{Contract, Status}
use gl_tomsxp.Server.Contracts

-- The request reaches that method, with the id ":id".
abbrev pub Reaches : Handler → Request → Type 0
Reaches h r = (served r ≡ some h) × (path_param r ≡ some ":id")

-- The button "sign" reaches `sign` on the server, and "decline" reaches `cancel`, but each with the id
-- ":id", whatever contract is shown. So they throw, unless a contract of that very id is stored.
pub sign-Reaches :
    (c : Client) (s : View) (start : Contract → Option (Status × String)) (user : Option String)
    (table : List Contract)
    → Contracts.find ":id" table ≡ none
    → ((r : Request) × ((View.sign (c, s)).sent ≡ r ∷ c.sent)
        × Reaches Handler.sign r
        × (Contracts.sign start user ":id" table ≡ none))
      × ((r : Request) × ((View.decline (c, s)).sent ≡ r ∷ c.sent)
          × Reaches Handler.cancel r
          × (Contracts.cancel ":id" table ≡ none))
unfolding View.sign View.decline served dispatch request_path path_param Contracts.sign
    Contracts.cancel
sign-Reaches c s start user table h = (
  (_, refl, (refl, refl), rw (h, Contracts.sign) refl),
  (_, refl, (refl, refl), rw (h, Contracts.cancel) refl),
)
