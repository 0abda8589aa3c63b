-- ===== src/Contracts.antt =====
-- The pages of contracts (src/main/js/modules/contracts.js): the lists of parties and clauses, the
-- label of a party, the list of users, and the pages that add, edit and view a contract.
pub mod Entries
pub mod Party
pub mod Users
pub mod Form
pub mod View
mod Tests
