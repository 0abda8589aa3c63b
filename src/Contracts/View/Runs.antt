-- ===== src/Contracts/View/Runs.antt =====
-- The page of one contract from its opening on (src/main/js/modules/contracts.js): the buttons, and
-- the contract that arrives at some time.
use gl_tomsxp.Common.{ap, String, map, ◌≡◌, refl, Option, none, some, List, [], ◌∷◌, ◌∙◌}
use gl_tomsxp.Client.{Channel, Client, Request, json, put, view_contracts, edit_contract}
use gl_tomsxp.Contracts.Form.{Contract}
use gl_tomsxp.Contracts.View.{
  party_label, View, open_contract, contract_loaded, contract_id, modify, sign, decline,
}

pub data Act : Type 0 where
  arrives : Contract → Act
  modifies signs declines : Act

abbrev pub act : Act → Client × View → Client × View
act (arrives k) (c, s) = (c, contract_loaded k s)
act modifies (c, s) = (modify (c, s), s)
act signs (c, s) = (sign (c, s), s)
act declines (c, s) = (decline (c, s), s)

abbrev pub act_all : List Act → Client × View → Client × View
act_all [] p = p
act_all (a ∷ acts) p = act_all acts (act a p)

-- The contract that arrived last, or `k` if none has.
abbrev pub last_arrived : Option Contract → List Act → Option Contract
last_arrived k [] = k
last_arrived k (arrives k' ∷ acts) = last_arrived (some k') acts
last_arrived k (_ ∷ acts) = last_arrived k acts

-- What the page shows of a contract.
abbrev pub view_of : Option Contract → View
view_of none = record { contract = none; title = none; clauses = []; parties = [] }
view_of (some k) = record {
  contract = some k;
  title = k.title;
  clauses = k.clauses;
  parties = map party_label k.parties_names;
}

act_all-view :
    (acts : List Act) (c : Client) (k : Option Contract)
    → (act_all acts (c, view_of k)).1 ≡ view_of (last_arrived k acts)
unfolding contract_loaded
act_all-view [] c k = refl
act_all-view (arrives k' ∷ acts) c k = act_all-view acts c (some k')
act_all-view (modifies ∷ acts) c k = act_all-view acts (modify (c, view_of k)) k
act_all-view (signs ∷ acts) c k = act_all-view acts (sign (c, view_of k)) k
act_all-view (declines ∷ acts) c k = act_all-view acts (decline (c, view_of k)) k

-- The id of a contract, undefined where there is none.
abbrev pub id_of : Option Contract → Option String
id_of none = none
id_of (some k) = k.id

contract_id-view_of : (k : Option Contract) → contract_id (view_of k) ≡ id_of k
contract_id-view_of none = refl
contract_id-view_of (some k) = refl

-- The request by which a contract is signed or cancelled.
abbrev pub verdict : String → Option String → Client → Request
verdict path id c = record {
  channel = Channel.http;
  verb = put;
  server = c.server;
  route = path;
  id = none;
  body = ("", json id) ∷ [];
  token = c.token;
}

-- In every order of clicks and arrivals the page shows the contract that arrived last, and its
-- buttons are about that one, or about an undefined id if none has arrived: "modify" leads to the
-- page that edits it, "sign" and "decline" send one PUT with its id and lead to the contracts.
pub act_all-buttons :
    (acts : List Act) (id : Option String) (c : Client)
    → let p = act_all acts (open_contract id c) in
      let k = last_arrived none acts in
      (p.1 ≡ view_of k)
      × ((modify p).pending ≡ some (edit_contract (id_of k)))
      × ((sign p).sent ≡ verdict "/api/contracts/sign/:id" (id_of k) p.0 ∷ p.0.sent)
      × ((sign p).pending ≡ some view_contracts)
      × ((decline p).sent ≡ verdict "/api/contracts/cancel/:id" (id_of k) p.0 ∷ p.0.sent)
      × ((decline p).pending ≡ some view_contracts)
unfolding open_contract modify sign decline
act_all-buttons acts id c =
    let p = act_all acts (open_contract id c) in
    let shows = act_all-view acts (open_contract id c).0 none in
    let named = ap contract_id shows ∙ contract_id-view_of (last_arrived none acts) in
    (
      shows,
      ap (λ i. some (edit_contract i)) named,
      ap (λ i. verdict "/api/contracts/sign/:id" i p.0 ∷ p.0.sent) named,
      refl,
      ap (λ i. verdict "/api/contracts/cancel/:id" i p.0 ∷ p.0.sent) named,
      refl,
    )
