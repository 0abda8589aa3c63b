-- ===== src/Contracts/View.antt =====
-- The pages that list contracts and view one: the controllers 'viewContracts' and 'viewContract'
-- of src/main/js/modules/contracts.js.
pub mod Runs
use gl_tomsxp.Common.{String, Option, none, some, List, [], ◌∷◌, map, false, true}
use gl_tomsxp.Client.{
  Client, Class, json, get, put, empty_header, flag, header, inject, go, call_class, call_http,
  view_contracts, edit_contract,
}
use gl_tomsxp.Contracts.Party.{party_label}
use gl_tomsxp.Contracts.Form.{Contract}

-- The contracts are asked for; the template displays them when they arrive.
unfoldable pub open_contracts : Client → Client
unfolding header inject call_class
open_contracts c = call_class Class.contract get none [] (
    header
      (record empty_header {
        back = some (flag false);
        title = some "Contracts";
        context_button = some (some "addContract");
      })
      (inject Class.contract c))

-- The scope of the page of one contract; `contract` is undefined until it arrives.
pub record View : Type 0 where
  pub contract : Option Contract
  pub title : Option String
  pub clauses : List String
  pub parties : List String

unfoldable pub open_contract : Option String → Client → Client × View
unfolding header inject call_class
open_contract id c = (
  call_class Class.contract get id [] (
      header
        (record empty_header {
          back = some (flag true);
          title = some "View contract";
          context_button = some (some "editContract");
          context_id = some id;
        })
        (inject Class.contract c)),
  record { contract = none; title = none; clauses = []; parties = [] },
)

-- The callback of `Contract.get`.
unfoldable pub contract_loaded : Contract → View → View
contract_loaded k s = record {
  contract = some k;
  title = k.title;
  clauses = k.clauses;
  parties = map party_label k.parties_names;
}

-- `contract.id`, undefined until the contract arrives.
abbrev pub contract_id : View → Option String
contract_id s = elim s.contract [ none ↦ none | some k ↦ k.id ]

unfoldable pub modify : Client × View → Client
unfolding go
modify (c, s) = go (edit_contract (contract_id s)) c

-- The body of the two requests is the bare id; the route keeps its ":id".
unfoldable pub sign : Client × View → Client
unfolding go call_http
sign (c, s) =
    go view_contracts (call_http put "/api/contracts/sign/:id" (("", json (contract_id s)) ∷ []) c)

unfoldable pub decline : Client × View → Client
unfolding go call_http
decline (c, s) =
    go view_contracts
      (call_http put "/api/contracts/cancel/:id" (("", json (contract_id s)) ∷ []) c)
