-- ===== src/Session/EditLink.antt =====
-- The button "Edit" of the top bar (src/main/js/html/contextButtons.html): which item or contract it
-- leads to, whatever the pages make of configHeader.
use gl_tomsxp.Common.{◌≡◌, refl, ap, ◌∙◌, String, Option, none, some, arith, if◌then◌else◌}
use gl_tomsxp.Client.{Client, Page, App, show_context_button, get_context_id, go, config_header}
use gl_tomsxp.Users.{
  open_login, submit_login, login_reply, open_subscribe, submit_subscribe, subscribe_reply,
  open_account, open_logout,
}
use gl_tomsxp.Search.{open_search, open_search_view_item, search_view_item_loaded}
use gl_tomsxp.Items
use gl_tomsxp.Settings.{
  open_settings, open_password, submit_password, password_reply, open_contact, submit_contact,
}
use gl_tomsxp.Messages.Inbox.{open_messages}
use gl_tomsxp.Messages.Inbox
use gl_tomsxp.Messages.Compose.{open_compose}
use gl_tomsxp.Messages.Compose
use gl_tomsxp.Contracts.Form
use gl_tomsxp.Contracts.View.{open_contracts, open_contract, modify, sign, decline}
use gl_tomsxp.Session.Enter.{enter-elim}
use gl_tomsxp.Session.{Reach, open_home, open_page, enter, Step}

-- The page that the button leads to, if there is one.
pub data Link : Type 0 where
  no_link : Link
  to_item : Option String → Link
  to_contract : Option String → Link

-- The button as the template displays it.
unfoldable pub edit_link : App → Link
unfolding show_context_button
edit_link app =
    if show_context_button "editItem" app
    then to_item (get_context_id app)
    else if show_context_button "editContract" app
    then to_contract (get_context_id app)
    else no_link

-- What a page makes of the button. The page of a found item leaves it alone until the item arrives.
abbrev pub page_link : Page → Link → Link
page_link (Page.my_items_view_one id) l = to_item id
page_link (Page.view_contract id) l = to_contract id
page_link (Page.search_view_item id) l = l
page_link _ l = no_link

abbrev entered : Option Page → Link → Link
entered none l = l
entered (some p) l = page_link p l

-- What a step makes of it: only a page that is entered and a found item that arrives touch it.
abbrev pub step_link : {c d : Client} → Step c d → Link → Link
step_link {c} Step.enters l = entered c.pending l
step_link (Step.item_shown id i) l = no_link
step_link _ l = l

abbrev pub reach_link : {c d : Client} → Reach c d → Link → Link
reach_link Reach.here l = l
reach_link (Reach.next r step) l = step_link step (reach_link r l)

open_page-edit_link :
    (p : Page) (c : Client) → edit_link (open_page p c).app ≡ page_link p (edit_link c.app)
unfolding edit_link open_page open_home open_search open_contact open_search_view_item
    Items.open_items Items.open_add Items.open_view Items.open_edit Items.open_sub open_messages
    open_compose open_contracts Form.open_add open_contract Form.open_edit open_subscribe open_login
    open_logout open_account open_settings open_password config_header
open_page-edit_link _ c = ground arith

Step-edit_link :
    {c d : Client} (step : Step c d) → edit_link d.app ≡ step_link step (edit_link c.app)
unfolding edit_link enter submit_login login_reply submit_subscribe subscribe_reply
    search_view_item_loaded Items.submit_add Items.submit_edit Items.submit_sub Items.saved
    Form.submit_add Form.submit_edit Form.delete_edit Form.saved modify sign decline
    Inbox.add_message Inbox.add_answered Compose.submit Compose.send_answered
    Compose.user_auto_complete submit_password password_reply submit_contact go
Step-edit_link {c} Step.enters =
    enter-elim (λ o d. edit_link d.app ≡ entered o (edit_link c.app)) c refl
      (λ p. open_page-edit_link p (record c { page = p; pending = none }))
Step-edit_link _ = ground arith

-- In every run the button "Edit" of the bar, with the button "Sub" for an item, is displayed as the
-- last page entered asks for, and as at the beginning if none was: with the id of that page for the
-- page of an item or of a contract, and not at all on any other, but for two cases. The page of a
-- found item leaves the button of the page before it in place until the item arrives; and a found
-- item takes the button away whenever it arrives, on another page too.
pub Reach-edit_link :
    {c d : Client} (r : Reach c d) → edit_link d.app ≡ reach_link r (edit_link c.app)
Reach-edit_link Reach.here = refl
Reach-edit_link (Reach.next r step) = Step-edit_link step ∙ ap (step_link step) (Reach-edit_link r)
