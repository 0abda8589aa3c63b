-- ===== src/Items/Laws.antt =====
-- What the page that edits an item sends, whenever the item arrives
-- (src/main/js/modules/myItems.js).
use gl_tomsxp.Common.{◌≡◌, refl, String, Option, none, List, [], ◌∷◌}
use gl_tomsxp.Client.{Client, put, Class, call_class}
use gl_tomsxp.Items.{
  Item, Fields, Edit, item_body, no_item, open_edit, edit_loaded, edit_typed, submit_edit,
}

-- What may happen between the opening of the page and the click on its button.
pub data Act : Type 0 where
  arrives : Item → Act
  types : Fields → Act

abbrev pub act : Act → Edit → Edit
act (arrives i) s = edit_loaded i s
act (types f) s = edit_typed f s

abbrev pub act_all : List Act → Edit → Edit
act_all [] s = s
act_all (a ∷ acts) s = act_all acts (act a s)

-- The item that arrived last, and the fields that the form then holds.
abbrev pub last_item : Item → List Act → Item
last_item i [] = i
last_item i (arrives j ∷ acts) = last_item j acts
last_item i (types f ∷ acts) = last_item i acts

abbrev pub last_fields : Fields → List Act → Fields
last_fields f [] = f
last_fields f (arrives j ∷ acts) =
    last_fields (record { title = j.title; description = j.description }) acts
last_fields f (types g ∷ acts) = last_fields g acts

act_all-eq :
    (acts : List Act) (s : Edit)
    → ((act_all acts s).item ≡ last_item s.item acts)
      × ((act_all acts s).form ≡ last_fields s.form acts)
unfolding edit_loaded edit_typed
act_all-eq [] s = (refl, refl)
act_all-eq (arrives i ∷ acts) s = act_all-eq acts (act (arrives i) s)
act_all-eq (types f ∷ acts) s = act_all-eq acts (act (types f) s)

-- Whenever the item arrives and whatever is typed, the button of the page sends, by PUT, the id of
-- the item that arrived last, or none if none has, with the fields as they were last set: by typing,
-- or by the arrival, which overwrites what was typed before it.
pub submit_edit-act_all :
    (acts : List Act) (c d : Client) (id : Option String)
    → let empty : Fields = record { title = none; description = none } in
      let f = last_fields empty acts in
      (submit_edit (d, act_all acts (open_edit id c).1)).0
      ≡ call_class Class.item put (last_item no_item acts).id (item_body f.title f.description) d
unfolding submit_edit open_edit
submit_edit-act_all acts c d id =
    let (items, fields) = act_all-eq acts (open_edit id c).1 in rw (items, fields) refl
