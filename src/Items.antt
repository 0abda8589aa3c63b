-- ===== src/Items.antt =====
-- The pages of src/main/js/modules/myItems.js: listing, adding, editing, deleting and viewing items.
pub mod Laws
mod Tests
use gl_tomsxp.Common.{String, Option, none, some, List, [], ◌∷◌, Outcome, done, threw}
use gl_tomsxp.Client.{
  Client, Json, json, Verb, get, post, put, delete, Class, item, empty_header, flag, header, inject,
  is_user_connected, call_class, go, my_items_view, Header,
}
use gl_tomsxp.Common.{true}

-- An item as the server sends it.
pub record Item : Type 0 where
  pub id : Option String
  pub title : Option String
  pub description : Option String

-- `$scope.form`
pub record Fields : Type 0 where
  pub title : Option String
  pub description : Option String

-- What the controllers of the five pages begin with: the class is injected, the user is checked,
-- the bar is configured.
abbrev begin : Header → Client → Client
begin h c = header h (is_user_connected (inject item c))

unfoldable pub open_items : Client → Client
unfolding header inject is_user_connected call_class
open_items c =
    call_class item get none [] (
      begin (record empty_header { title = some "Items"; context_button = some (some "addItem") })
        c)

unfoldable pub open_add : Client → Client
unfolding header inject is_user_connected
open_add c = begin (record empty_header { back = some (flag true); title = some "Add item" }) c

-- What the pages set of an item; what else of it came from the server is sent along as it is.
abbrev pub item_body : Option String → Option String → List (String × Json)
item_body title description = ("title", json title) ∷ ("description", json description) ∷ []

-- `$scope.submit` of the page that adds; it throws while `$scope.form` is undefined.
unfoldable pub submit_add : Option Fields → Client → Outcome Client
unfolding call_class
submit_add none c = threw c
submit_add (some f) c = done (call_class item post none (item_body f.title f.description) c)

-- The scope of the page that edits: the form, and the item object, whose fields are undefined
-- until it arrives.
pub record Edit : Type 0 where
  pub form : Fields
  pub item : Item

abbrev pub no_item : Item
no_item = record { id = none; title = none; description = none }

unfoldable pub open_edit : Option String → Client → Client × Edit
unfolding header inject is_user_connected call_class
open_edit id c = (
  call_class item get id []
      (begin (record empty_header { back = some (flag true); title = some "Edit item" }) c),
  record { form = record { title = none; description = none }; item = no_item },
)

-- The callback of `Item.get`: the answer is copied into the object, then into the form.
unfoldable pub edit_loaded : Item → Edit → Edit
edit_loaded i s = record {
  item = i;
  form = record { title = i.title; description = i.description };
}

-- The user types.
unfoldable pub edit_typed : Fields → Edit → Edit
edit_typed f s = record s { form = f }

-- `$scope.submit` of the page that edits.
unfoldable pub submit_edit : Client × Edit → Client × Edit
unfolding call_class
submit_edit (c, s) =
    let i : Item = record (s.item) { title = s.form.title; description = s.form.description } in
    (call_class item put i.id (item_body i.title i.description) c, record s { item = i })

-- The page that deletes an item, with the item object as its scope.
unfoldable pub open_sub : Option String → Client → Client × Item
unfolding header inject is_user_connected call_class
open_sub id c = (
  call_class item get id []
      (begin (record empty_header { back = some (flag true); title = some "Delete item" }) c),
  no_item,
)

unfoldable pub sub_loaded : Item → Item → Item
sub_loaded found i = found

unfoldable pub submit_sub : Client × Item → Client
unfolding call_class
submit_sub (c, i) = call_class item delete i.id [] c

-- The callbacks of `$save`, `$update` and `$delete`.
unfoldable pub saved : Client → Client
unfolding go
saved c = go my_items_view c

unfoldable pub open_view : Option String → Client → Client
unfolding header inject is_user_connected call_class
open_view id c = call_class item get id [] (
    begin
      (record empty_header {
        back = some (flag true);
        title = some "View item";
        context_button = some (some "editItem");
        context_id = some id;
      })
      c)
