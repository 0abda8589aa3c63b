-- ===== src/Server/Contracts/Tests.antt =====
-- Small tables of contracts, to which the theorems on src/main/java/controller/Contracts.java are
-- applied.
use gl_tomsxp.Common.{
  zero, suc, suc, ℕ, ◌≡◌, refl, String, Option, none, some, false, List, [], ◌∷◌, if◌then◌else◌,
  ◌==◌,
}
use gl_tomsxp.Server.Contracts.{
  Contract, Draft, Status, Wish, find, cancel, sign, edit, names_if, names_of, revise_all, Step,
  Along,
}
use gl_tomsxp.Server.Contracts.Laws.{Spares, Along-find}
use gl_tomsxp.Server.Contracts.Edited.{Edited, Pairs, edit-Pairs}

abbrev fresh_contract : Contract
fresh_contract = record {
  id = "7";
  userid = "1";
  title = some "Loan";
  clauses = some ("ann gives 5 to bob" ∷ []);
  parties = some ("1" ∷ "2" ∷ []);
  names = ("1", "ann") ∷ ("2", "bob") ∷ [];
  wish = Wish.neutral;
  status = Status.nowhere;
  signatures = none;
  establishement_data = none;
}

abbrev declined_contract : Contract
declined_contract = record fresh_contract { wish = Wish.refuse; status = Status.cancelled }

-- Once it is cancelled, it is asked for a signature, and cancelled again.
insisted : Along (Spares "7") (declined_contract ∷ []) (declined_contract ∷ [])
unfolding sign cancel
insisted =
    Along.next
      (Along.next Along.here
        (Step.signs (λ c. some (Status.signing, "data")) (some "1") "7" false refl) tt)
      (Step.cancels "7" false refl) tt

Along-find_example : find "7" (declined_contract ∷ []) ≡ some declined_contract
Along-find_example = Along-find "7" declined_contract insisted (refl, refl) refl

-- Ann sends new clauses under the title of the contract.
abbrev draft : Draft
draft = record {
  id = some "7";
  userid = some "1";
  title = some "Loan";
  clauses = some ("ann gives 6 to bob" ∷ []);
  parties = some ("1" ∷ "2" ∷ []);
}

abbrev nick_of : String → Option String
nick_of id = if id == "1" then some "ann" else if id == "2" then some "bob" else none

abbrev edited : List Contract
edited = record fresh_contract { clauses = some ("ann gives 6 to bob" ∷ []) } ∷ []

edit-Pairs_example :
    (names : List (String × String)) × (names_if nick_of draft.parties ≡ some names)
    × Pairs (Edited draft names) (fresh_contract ∷ []) edited
unfolding edit revise_all names_of
edit-Pairs_example = edit-Pairs nick_of draft (fresh_contract ∷ []) edited refl

-- A copy for each of the two.
abbrev copy : String → Contract
copy user = record {
  id = user;
  userid = user;
  title = some "Loan";
  clauses = some ("ann gives 6 to bob" ∷ []);
  parties = some ("1" ∷ "2" ∷ []);
  names = ("1", "ann") ∷ ("2", "bob") ∷ [];
  wish = Wish.neutral;
  status = Status.nowhere;
  signatures = none;
  establishement_data = none;
}

abbrev draw : ℕ → String
draw zero = "1"
draw (suc k) = "2"
