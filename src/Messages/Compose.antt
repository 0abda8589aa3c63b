-- ===== src/Messages/Compose.antt =====
-- The page 'addMessage' of src/main/js/modules/messages.js: the choice of a receiver, with a stream
-- of users that match what is typed, and the message.
pub mod Laws
pub mod Query
pub mod Runs
use gl_tomsxp.Common.{
  done, threw, Outcome, ℕ, String, Option, none, some, Bool, true, false, List, [], ◌∷◌, ◌++◌,
  truthy, shown, concat, length, nat_eq, if◌then◌else◌, ◌&&◌,
}
use gl_tomsxp.Client.{
  Client, Json, json, get, post, Class, user, message, empty_header, yes_text, header, inject,
  is_user_connected, call_class, call_oboe, go, messages,
}
use gl_tomsxp.Results.{push_result, push_all}

pub record Found : Type 0 where
  pub id : Option String
  pub nick : Option String
  pub key : Option (Option String)

-- `$scope.status`
pub data Status : Type 0 where
  unset started finished : Status

-- The scope, and the streams that it aborted, newest first.
pub record Compose : Type 0 where
  pub receiver_name : Option String
  pub receiver_id : Option String
  pub receiver_key : Option String
  pub content : Option String
  pub results : List Found
  pub stream : Option ℕ
  pub status : Status
  pub error_username : Bool
  pub error_fields : Bool
  pub error_search : Bool
  pub send_message : Bool
  pub search_user : Bool
  pub hide_after_selected : Bool
  pub aborted : List ℕ

unfoldable pub open_compose : Client → Client × Compose
unfolding header inject is_user_connected call_class
open_compose c =
    let c' : Client =
      header
        (record empty_header {
          context_button = some (some "");
          title = some "New message";
          back = some yes_text;
        })
        (is_user_connected (inject user (inject message c))) in
    (
      call_class user get c'.app.user_id [] c',
      record {
        receiver_name = none;
        receiver_id = none;
        receiver_key = none;
        content = none;
        results = [];
        stream = none;
        status = unset;
        error_username = false;
        error_fields = false;
        error_search = false;
        send_message = false;
        search_user = false;
        hide_after_selected = false;
        aborted = [];
      },
    )

-- `$scope.pushResult`
unfoldable pub push : Option Found → Compose → Compose
unfolding push_result
push obj s = record s { results = push_result (λ r. r.id) obj s.results }

-- `$scope.submit`
unfoldable pub submit : Client × Compose → Client × Compose
unfolding call_oboe
submit (c, s) =
    if truthy s.content && (truthy s.receiver_name && truthy s.receiver_id)
    then (
      call_oboe post "/api/messages/"
          (("receiverName", json s.receiver_name)
            ∷ ("receiverId", json s.receiver_id)
            ∷ ("messageContent", json s.content)
            ∷ [])
          c.token c,
      record s { error_username = false; error_fields = false; send_message = true },
    )
    else (c, record s { error_fields = true })

-- The callbacks of that request. A node that is an object has no length, so it counts as one that is
-- not empty.
unfoldable pub send_started : ℕ → Compose → Compose
send_started n s = record s { stream = some n; status = started; send_message = true }

unfoldable pub send_done : Compose → Compose
send_done s = record s { status = finished; send_message = false }

unfoldable pub send_failed : Compose → Compose
send_failed s = record s { send_message = false }

unfoldable pub send_answered : Option (List (Option Found)) → Client × Compose → Client × Compose
unfolding go
send_answered none (c, s) = (c, s)
send_answered (some []) (c, s) = (c, s)
send_answered (some (m ∷ ms)) (c, s) = (go messages c, record s { send_message = false })

-- `stream.abort()` where there is a stream
abort_running : Compose → Compose
abort_running s = elim s.stream [ none ↦ s | some n ↦ record s { aborted = n ∷ s.aborted } ]

-- `$scope.userAutoComplete`, at each key in the name of the receiver; no token is sent.
unfoldable pub user_auto_complete : Client × Compose → Client × Compose
unfolding abort_running call_oboe
user_auto_complete (c, s) = (
  call_oboe get (concat "/api/search/users?nick=" (shown s.receiver_name)) [] none c,
  abort_running (record s {
    results = [];
    error_search = false;
    search_user = true;
    hide_after_selected = true;
    error_fields = false;
    receiver_id = none;
    receiver_key = none;
  }),
)

-- The callbacks of that stream.
unfoldable pub search_started : ℕ → Compose → Compose
search_started n s = record s { stream = some n; status = started }

unfoldable pub search_done : Compose → Compose
search_done s = record s { status = finished }

-- The lines behind the loop.
close_node : Compose → Compose
close_node s = record s { search_user = false; error_search = nat_eq (length s.results) 0 }

unfoldable pub search_received : Option (List (Option Found)) → Compose → Compose
unfolding push_all close_node
search_received none s = close_node s
search_received (some node) s =
    close_node (record s { results = push_all (λ r. r.id) node s.results })

-- `$scope.selectUser`; what is typed as the name stays as it is. It throws at `receiver.key.publicKey`
-- if the user has no `key`, with the id set already.
unfoldable pub select_user : Found → Compose → Outcome Compose
select_user u s =
    let s' : Compose = record s { hide_after_selected = false; receiver_id = u.id } in
    elim u.key [ none ↦ threw s' | some key ↦ done (record s' { receiver_key = key }) ]
