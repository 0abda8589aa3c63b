-- ===== src/Session/Races.antt =====
-- Two logins at once (the controller 'login' of src/main/js/modules/users.js).
use gl_tomsxp.Common.{[], Option, String, none, some, state}
use gl_tomsxp.Client.{get, resource, Client, Request}
use gl_tomsxp.Users.{Answer, Login, submit_login, login_reply}
use gl_tomsxp.Items
use gl_tomsxp.Session.{enter}

-- Two forms are sent one after the other.
abbrev pub both_sent : Login → Login → Client → Client
both_sent s s' c = (submit_login ((submit_login (c, s)).0, s')).0

-- The answer to the first form arrives, and the page that it asks for is entered.
abbrev pub answered_first : Login → Login → Answer → Client → Client
answered_first s s' a c = enter (state (login_reply (some a) (both_sent s s' c, s))).0

-- What the page of items asks for.
abbrev pub items_request : String → Option String → Request
items_request server token = record {
  channel = resource;
  verb = get;
  server = server;
  route = "/api/items/:id";
  id = none;
  body = [];
  token = token;
}
