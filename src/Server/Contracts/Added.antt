-- ===== src/Server/Contracts/Added.antt =====
-- What a new contract adds to the lists of its parties (`add` and `get` of
-- src/main/java/controller/Contracts.java).
use gl_tomsxp.Common.{◌==◌, String, Option, List, [], ◌∷◌, ℕ, ◌+◌, if◌then◌else◌}

-- How often the user is among the parties.
abbrev pub occurrences : String → List String → ℕ
occurrences user [] = 0
occurrences user (p ∷ ps) = (if p == user then 1 else 0) + occurrences user ps
