-- ===== src/Session/Requests.antt =====
-- The requests of small runs of the client in src/main/js/modules, as the server answers them.
use gl_tomsxp.Common.{◌≡◌, refl, none, some, []}
use gl_tomsxp.Client.{Client, initial_client}
use gl_tomsxp.Items.{Item}
use gl_tomsxp.Items
use gl_tomsxp.Contracts.View.{View}
use gl_tomsxp.Server.Contracts
use gl_tomsxp.Session.Signing.{sign-Reaches}

-- An item is deleted, and then one that has not arrived.
abbrev known_item : Item
known_item = record { id = some "7"; title = none; description = none }

abbrev unknown_item : Item
unknown_item = record known_item { id = none }

abbrev deleting : Client
deleting = Items.submit_sub (Items.submit_sub (initial_client, known_item), unknown_item)

-- The page of a contract, which has arrived.
abbrev view : View
view = record {
  contract = some (record { id = some "7"; title = none; clauses = []; parties_names = [] });
  title = none;
  clauses = [];
  parties = [];
}

sign-Reaches_example : Contracts.sign (λ c. none) none ":id" [] ≡ none
sign-Reaches_example = (sign-Reaches initial_client view (λ c. none) none [] refl).0.3
