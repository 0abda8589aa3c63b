-- ===== src/Session/Liveness.antt =====
-- What a user can always do (src/main/js/modules/users.js).
use gl_tomsxp.Common.{◌≡◌, none, some, String, true, false, truthy, state, arith}
use gl_tomsxp.Client.{Client, login, my_items_view, go}
use gl_tomsxp.Users.{Answer, Login, open_login, submit_login, login_reply}
use gl_tomsxp.Items
use gl_tomsxp.Session.{Step, Reach, enter, open_page}

-- The login, from the link in the side menu to the page of items.
abbrev pub logged_in : Login → Answer → Client → Client
logged_in s a c = enter (state (login_reply (some a) (submit_login (enter (go login c), s)))).0

-- From every state of the client, whatever is pending, the login page can be reached, and a login
-- whose answer has a user id and no error leads to the items, with that user and his token at the
-- server of the form, and with the entries of the side menu.
pub login_reachable :
    (c : Client) (s : Login) (a : Answer) (id : String)
    → truthy a.error ≡ false
    → a.userid ≡ some id
    → let d = logged_in s a c in
      Reach c d
      × (d.page ≡ my_items_view)
      × (d.pending ≡ none)
      × (d.app.user_id ≡ some id)
      × (d.token ≡ a.token)
      × (d.server ≡ s.form_server)
      × (d.user_logged ≡ true)
unfolding enter open_page open_login Items.open_items submit_login login_reply go
login_reachable c s a id h k = (
  Reach.next
      (Reach.next
        (Reach.next (Reach.next (Reach.next Reach.here (Step.navigates login)) Step.enters)
          (Step.logs_in s))
        (Step.login_answered (some a) _))
      Step.enters,
  ground arith,
  ground arith,
  ground arith,
  ground arith,
  ground arith,
  ground arith,
)
