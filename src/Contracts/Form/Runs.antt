-- ===== src/Contracts/Form/Runs.antt =====
-- The page that edits a contract from its opening on (src/main/js/modules/contracts.js): typing,
-- buttons and the answers of the server in some order.
use gl_tomsxp.Common.{◌⊎◌, String, ◌≡◌, Option, List, [], ◌∷◌, state}
use gl_tomsxp.Client.{Verb, Request, Client}
use gl_tomsxp.Contracts.Users.{Account}
use gl_tomsxp.Contracts.Form.{
  Form, Contract, edit_loaded, users_loaded, submit_edit, delete_edit, saved,
}
use gl_tomsxp.Contracts.Form
use gl_tomsxp.Contracts.Form.Laws

-- What can happen to the page once it is open.
pub data Act : Type 0 where
  arrives : Contract → Act
  users_arrive : List Account → Act
  uses_form : Laws.Act → Act
  submits deletes answered : Act

abbrev pub act : Act → Client × Form → Client × Form
act (arrives k) (c, s) = (c, edit_loaded k s)
act (users_arrive users) (c, s) = (c, users_loaded users s)
act (uses_form a) (c, s) = (c, Laws.act a s)
act submits p = state (submit_edit p)
act deletes p = delete_edit p
act answered (c, s) = (saved c, s)

abbrev pub act_all : List Act → Client × Form → Client × Form
act_all [] p = p
act_all (a ∷ acts) p = act_all acts (act a p)

-- The id of the contract that arrived last, or `id` if none has.
abbrev pub last_arrived : Option String → List Act → Option String
last_arrived id [] = id
last_arrived id (arrives k ∷ acts) = last_arrived k.id acts
last_arrived id (_ ∷ acts) = last_arrived id acts

-- The requests `after` are those `before`, or one more, by `verb` to the contract `id`.
abbrev pub Sends : Verb → Option String → List Request → List Request → Type 0
Sends verb id before after =
    (after ≡ before)
    ⊎ ((r : Request) × (after ≡ r ∷ before)
        × (r.verb ≡ verb)
        × (r.route ≡ "/api/contracts/:id")
        × (r.id ≡ id))
