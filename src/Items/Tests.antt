-- ===== src/Items/Tests.antt =====
-- The page that edits an item at a concrete run.
use gl_tomsxp.Common.{◌≡◌, none, some, List, [], ◌∷◌}
use gl_tomsxp.Client.{initial_client, call_class, put, Class}
use gl_tomsxp.Items.{Item, open_edit, submit_edit, item_body}
use gl_tomsxp.Items.Laws.{Act, arrives, types, act_all, submit_edit-act_all}

abbrev pear : Item
pear = record { id = some "7"; title = some "pear"; description = some "green" }

abbrev run : List Act
run = types (record { title = some "x"; description = none }) ∷ arrives pear ∷ []

-- What was typed before the arrival is lost.
submit_edit-act_all_example :
    (submit_edit (initial_client, act_all run (open_edit (some "7") initial_client).1)).0
    ≡ call_class Class.item put (some "7") (item_body (some "pear") (some "green")) initial_client
submit_edit-act_all_example = submit_edit-act_all run initial_client initial_client (some "7")
