-- ===== src/Settings/Tests.antt =====
-- The page that changes the password at concrete inputs.
use gl_tomsxp.Common.{some, false}
use gl_tomsxp.Settings.{Fields, Password}

abbrev fields : Fields
fields = record { previous = some "a"; pass1 = some "b"; pass2 = some "b" }

abbrev page : Password
page = record {
  form = some fields;
  error = false;
  changed = false;
  error_login = false;
  error_server = false;
}
