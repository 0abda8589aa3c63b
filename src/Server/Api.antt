-- ===== src/Server/Api.antt =====
-- Which method of src/main/java/controller answers a request. The annotations `ServletPath` and `Path`
-- are read as JAX-RS documents them: the template that matches with the most literal characters is
-- chosen by the path alone, and then one of its methods by the verb.
use gl_tomsxp.Common.{
  ◌==◌, String, Char, code, Option, none, some, Bool, true, false, List, [], ◌∷◌, ◌&&◌, chars,
  of_chars, nat_eq, if◌then◌else◌,
}
use gl_tomsxp.Client.{Verb, get, post, put, delete, resource, Request}
use gl_tomsxp.Client.Query.{pieces, up_to, question}

-- The methods of the classes Users, Items, Contracts, Messages and Search.
pub data Handler : Type 0 where
  login logout subscribe users_add users_get users_all users_edit change_password : Handler
  users_delete items_add items_get items_all items_edit items_delete : Handler
  contracts_add contracts_get contracts_all contracts_edit contracts_delete sign cancel : Handler
  messages_add messages_all messages_edit messages_delete search_simple search_users : Handler

-- A segment of a template: itself, or any one segment.
pub data Segment : Type 0 where
  literal : String → Segment
  param : Segment

pub record Resource : Type 0 where
  pub template : List Segment
  pub methods : List (Verb × Handler)

-- The templates of each class, those with more literal characters first.
abbrev pub users : List Resource
users =
    record { template = literal "subscribe" ∷ []; methods = (post, subscribe) ∷ [] }
    ∷ record { template = literal "password" ∷ []; methods = (post, change_password) ∷ [] }
    ∷ record { template = literal "logout" ∷ []; methods = (get, logout) ∷ [] }
    ∷ record { template = literal "login" ∷ []; methods = (post, login) ∷ [] }
    ∷ record {
      template = param ∷ [];
      methods = (get, users_get) ∷ (put, users_edit) ∷ (delete, users_delete) ∷ [];
    }
    ∷ record { template = []; methods = (post, users_add) ∷ (get, users_all) ∷ [] }
    ∷ []

abbrev pub items : List Resource
items =
    record {
      template = param ∷ [];
      methods = (get, items_get) ∷ (put, items_edit) ∷ (delete, items_delete) ∷ [];
    }
    ∷ record { template = []; methods = (post, items_add) ∷ (get, items_all) ∷ [] }
    ∷ []

abbrev pub contracts : List Resource
contracts =
    record { template = literal "cancel" ∷ param ∷ []; methods = (put, cancel) ∷ [] }
    ∷ record { template = literal "sign" ∷ param ∷ []; methods = (put, sign) ∷ [] }
    ∷ record {
      template = param ∷ [];
      methods = (get, contracts_get) ∷ (put, contracts_edit) ∷ (delete, contracts_delete) ∷ [];
    }
    ∷ record { template = []; methods = (post, contracts_add) ∷ (get, contracts_all) ∷ [] }
    ∷ []

abbrev pub messages : List Resource
messages =
    record {
      template = param ∷ [];
      methods = (put, messages_edit) ∷ (delete, messages_delete) ∷ [];
    }
    ∷ record { template = []; methods = (post, messages_add) ∷ (get, messages_all) ∷ [] }
    ∷ []

abbrev pub search : List Resource
search =
    record { template = literal "simple" ∷ []; methods = (get, search_simple) ∷ [] }
    ∷ record { template = literal "users" ∷ []; methods = (get, search_users) ∷ [] }
    ∷ []

abbrev matches : List Segment → List String → Bool
matches [] [] = true
matches (literal s ∷ template) (t ∷ path) = (s == t) && matches template path
matches (param ∷ template) (t ∷ path) = matches template path
matches _ _ = false

abbrev same : Verb → Verb → Bool
same get get = true
same post post = true
same put put = true
same delete delete = true
same _ _ = false

abbrev method : Verb → List (Verb × Handler) → Option Handler
method verb [] = none
method verb ((v, h) ∷ rest) = let later = method verb rest in if same v verb then some h else later

-- Where no template matches the answer is 404, and where the template has no such method it is 405.
abbrev among : Verb → List String → List Resource → Option Handler
among verb path [] = none
among verb path (r ∷ rest) =
    let later = among verb path rest in
    if matches r.template path then method verb r.methods else later

-- The class by its `ServletPath`.
abbrev servlet : String → List Resource
servlet name =
    if name == "users"
    then users
    else if name == "items"
    then items
    else if name == "contracts"
    then contracts
    else if name == "messages"
    then messages
    else if name == "search"
    then search
    else []

unfoldable pub dispatch : Verb → List String → Option Handler
dispatch verb (api ∷ name ∷ path) = if api == "api" then among verb path (servlet name) else none
dispatch verb _ = none

abbrev pub slash : Char → Bool
slash c = nat_eq (code c) 47

abbrev kept : List (List Char) → List String
kept [] = []
kept ([] ∷ rest) = kept rest
kept ((c ∷ s) ∷ rest) = of_chars (c ∷ s) ∷ kept rest

-- The segments of a route as the client writes it, its query left aside.
abbrev pub segments : List Char → List String
segments route = kept (pieces slash (up_to question route))

-- `$resource` puts the id in the place of `:id`, and drops the segment where there is no id.
abbrev place : Option String → List String → List String
place id [] = []
place none (s ∷ path) = let rest = place none path in if s == ":id" then rest else s ∷ rest
place (some id) (s ∷ path) =
    let rest = place (some id) path in
    if s == ":id" then if id == "" then rest else id ∷ rest else s ∷ rest

-- Only `$resource` knows `:id`; in a route of `$http` it stays as it is written.
unfoldable pub request_path : Request → List String
request_path r = elim r.channel [
  | resource ↦ place r.id (segments (chars r.route))
  | _ ↦ segments (chars r.route)
]

unfoldable pub served : Request → Option Handler
unfolding dispatch request_path
served r = dispatch r.verb (request_path r)

-- The segment in the place of a parameter of the template: the `id` of the method.
abbrev bound : List Segment → List String → Option String
bound (param ∷ template) (t ∷ path) = some t
bound (literal s ∷ template) (t ∷ path) = bound template path
bound _ _ = none

abbrev bound_among : List String → List Resource → Option String
bound_among path [] = none
bound_among path (r ∷ rest) =
    let later = bound_among path rest in
    if matches r.template path then bound r.template path else later

unfoldable pub path_param : Request → Option String
unfolding request_path
path_param r = elim (request_path r) [
  | api ∷ name ∷ path ↦ bound_among path (servlet name)
  | _ ↦ none
]
