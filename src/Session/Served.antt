-- ===== src/Session/Served.antt =====
-- The requests of the client (src/main/js/modules) against the methods of the server that answer them
-- (src/main/java/controller).
use gl_tomsxp.Common.{
  eq_iff, Bool-cases, eq_iff, ◌==◌, All, ◌≡◌, String, Option, none, some, Bool, false, ◌&&◌, ◌||◌,
  not, is_some, truthy, Bool-cases,
}
use gl_tomsxp.Client.{Client, resource, Verb, get, post, put, delete, Request}
use gl_tomsxp.Server.Api.{
  Handler, items_add, items_edit, items_delete, contracts_add, contracts_edit, contracts_delete,
  sign, cancel, messages_add, search_users, change_password, served,
}
use gl_tomsxp.Session.Opening.{Opening}
use gl_tomsxp.Session.Moving.{
  Moving, Presses, adds_item, edits_item, deletes_item, adds_contract, edits_contract,
  deletes_contract, signs, declines, adds_message, finds_users, changes_password,
}

-- The ids of users that are literal segments of the server's templates, but for "logout", which
-- answers GET.
abbrev reserved : Option String → Bool
reserved none = false
reserved (some id) = "subscribe" == id || ("password" == id || "login" == id)

abbrev unfit : Verb → Bool → Option String → Bool
unfit get is_user id = is_user && reserved id
unfit post is_user id = truthy id
unfit put is_user id = not (truthy id)
unfit delete is_user id = not (truthy id)

-- A request of `$resource` whose id does not go with its verb: a PUT or DELETE without an id, a POST
-- with one, or a GET of a user whose id is reserved.
abbrev pub misfit : Request → Bool
misfit r = elim r.channel [ resource ↦ unfit r.verb (r.route == "/api/users/:id") r.id | _ ↦ false ]

abbrev pub IsFitting : Request → Type 0
IsFitting r = is_some (served r) ≡ not (misfit r)

-- The requests of the client.
abbrev pub AreFitting : Client → Type 0
AreFitting c = All IsFitting c.sent

-- The method that each button means.
abbrev pub meant : {c : Client} {r : Request} → Presses c r → Handler
meant (adds_item title description) = items_add
meant (edits_item id title description) = items_edit
meant (deletes_item id) = items_delete
meant (adds_contract s ids) = contracts_add
meant (edits_contract s ids) = contracts_edit
meant (deletes_contract id) = contracts_delete
meant (signs id) = sign
meant (declines id) = cancel
meant (adds_message name id content) = messages_add
meant (finds_users name) = search_users
meant (changes_password f) = change_password
