-- ===== src/Client/Tests.antt =====
-- The top bar at concrete inputs.
use gl_tomsxp.Client.Hex.{text_of, number, hex}
use gl_tomsxp.Common.{◌≡◌, refl, some, true}
use gl_tomsxp.Client.Controller.{
  initial_app, Header, empty_header, flag, yes_text, show_context_button, config_header,
}

abbrev viewing : Header
viewing = record {
  back = some (flag true);
  title = some "View item";
  context_button = some (some "editItem");
  context_id = some (some "7");
}

abbrev new_message : Header
new_message = record empty_header { title = some "New message"; back = some yes_text }

config_header_test : (config_header viewing initial_app).context_id ≡ some "7"
unfolding config_header
config_header_test = refl

show_context_button_test : show_context_button "editItem" (config_header viewing initial_app) ≡ true
unfolding config_header show_context_button
show_context_button_test = refl

hex_test : hex 65537 ≡ "10001"
unfolding hex text_of number
hex_test = refl
