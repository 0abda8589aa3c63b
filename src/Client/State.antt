-- ===== src/Client/State.antt =====
-- The state that outlives a page: the controller of the application, `$rootScope.userLogged`, the
-- address of the server, the default headers of `$http`, the resource classes, and the router.
use gl_tomsxp.Common.{
  String, Option, none, some, Bool, true, false, List, [], ◌∷◌, is_some, if◌then◌else◌,
}
use gl_tomsxp.Client.Pages.{Page, home, login}
use gl_tomsxp.Client.Http.{Channel, Verb, http, resource, Json, Request}
use gl_tomsxp.Client.Controller.{App, initial_app, Header, config_header}

-- The classes that src/main/js/modules/restApi.js defines.
pub data Class : Type 0 where
  user item message contract : Class

-- The server in the URL of each class: the value of `RESTAPISERVER` when the first page that asks
-- for the class is opened, since AngularJS runs a factory once, when it is first injected.
pub record Bases : Type 0 where
  pub user_base : Option String
  pub item_base : Option String
  pub message_base : Option String
  pub contract_base : Option String

abbrev pub base : Class → Bases → Option String
base user b = b.user_base
base item b = b.item_base
base message b = b.message_base
base contract b = b.contract_base

abbrev pub set_base : Class → Option String → Bases → Bases
set_base user s b = record b { user_base = s }
set_base item s b = record b { item_base = s }
set_base message s b = record b { message_base = s }
set_base contract s b = record b { contract_base = s }

abbrev pub route : Class → String
route user = "/api/users/:id"
route item = "/api/items/:id"
route message = "/api/messages/:id"
route contract = "/api/contracts/:id"

-- `pending` is the page of the last `$state.go` that has not been entered yet: a later call takes
-- the place of an earlier one. `sent` holds the requests, the newest first.
pub record Client : Type 0 where
  pub app : App
  pub user_logged : Bool
  pub server : String
  pub token : Option String
  pub bases : Bases
  pub page : Page
  pub pending : Option Page
  pub sent : List Request

unfoldable pub initial_client : Client
unfolding initial_app
initial_client = record {
  app = initial_app;
  user_logged = false;
  server = "https://localhost:8081";
  token = none;
  bases = record { user_base = none; item_base = none; message_base = none; contract_base = none };
  page = home;
  pending = none;
  sent = [];
}

-- `$state.go`
unfoldable pub go : Page → Client → Client
go page c = record c { pending = some page }

-- `$scope.app.configHeader`
unfoldable pub header : Header → Client → Client
unfolding config_header
header h c = record c { app = config_header h c.app }

-- `isUserConnected`; the rest of the page's controller still runs after the redirection.
unfoldable pub is_user_connected : Client → Client
unfolding go
is_user_connected c =
    if is_some c.app.user_id
    then record c { user_logged = true }
    else go login (record c { user_logged = false })

-- The injection of a class: its factory runs if it has not run before.
unfoldable pub inject : Class → Client → Client
inject k c =
    if is_some (base k c.bases) then c else record c { bases = set_base k (some c.server) c.bases }

unfoldable pub send : Request → Client → Client
send r c = record c { sent = r ∷ c.sent }

-- A request of `$http`: the server is the present one.
abbrev pub http_request : Verb → String → List (String × Json) → Client → Request
http_request verb path body c = record {
  channel = http;
  verb = verb;
  server = c.server;
  route = path;
  id = none;
  body = body;
  token = c.token;
}

-- `$http.get`, `$http.post`, `$http.put`
unfoldable pub call_http : Verb → String → List (String × Json) → Client → Client
unfolding send
call_http verb path body c = send (http_request verb path body c) c

abbrev pub base_or : Option String → String → String
base_or none s = s
base_or (some b) s = b

-- A request of a resource class: its server is fixed.
abbrev pub class_request : Class → Verb → Option String → List (String × Json) → Client → Request
class_request k verb id body c = record {
  channel = resource;
  verb = verb;
  server = base_or (base k c.bases) c.server;
  route = route k;
  id = id;
  body = body;
  token = c.token;
}

unfoldable pub call_class : Class → Verb → Option String → List (String × Json) → Client → Client
unfolding send
call_class k verb id body c = send (class_request k verb id body c) c

-- A request of `Oboe`: the page gives the header itself, or none.
abbrev pub oboe_request : Verb → String → List (String × Json) → Option String → Client → Request
oboe_request verb path body token c = record {
  channel = Channel.oboe;
  verb = verb;
  server = c.server;
  route = path;
  id = none;
  body = body;
  token = token;
}

unfoldable pub call_oboe : Verb → String → List (String × Json) → Option String → Client → Client
unfolding send
call_oboe verb path body token c = send (oboe_request verb path body token c) c

-- `$state.reload`
unfoldable pub reload : Client → Client
reload c = record c { pending = some c.page }
