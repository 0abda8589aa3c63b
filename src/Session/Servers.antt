-- ===== src/Session/Servers.antt =====
-- Which servers the requests of the client go to (`RESTAPISERVER` of src/main/js/modules/restApi.js,
-- which the forms of src/main/js/modules/users.js set).
use gl_tomsxp.Common.{All, ◌≡◌, String, Option, none, some, Bool, true}
use gl_tomsxp.Client.{Request, Client, Class, base}
use gl_tomsxp.Session.Opening.{Opening}
use gl_tomsxp.Session.Moving.{Moving}
use gl_tomsxp.Session.{Step}

module _ (trusted : String → Bool) where
  -- The server of a class, if it has been chosen, is trusted.
  abbrev pub base_trusted : Option String → Bool
  base_trusted none = true
  base_trusted (some b) = trusted b

  -- The present server, those of the classes, and those of all requests are trusted.
  pub record IsConfined (c : Client) : Type 0 where
    pub present : trusted c.server ≡ true
    pub bases : (k : Class) → base_trusted (base k c.bases) ≡ true
    pub sent : All (λ (r : Request). trusted r.server ≡ true) c.sent

  -- The steps but for a login or a subscription whose form names a server that is not trusted.
  abbrev pub IsCareful : (c d : Client) → Step c d → Type 0
  IsCareful _ _ (Step.logs_in s) = trusted s.form_server ≡ true
  IsCareful _ _ (Step.subscribes s) = trusted s.form_server ≡ true
  IsCareful _ _ _ = Unit
