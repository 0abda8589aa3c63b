-- ===== src/Lib.antt =====
-- The browser client of SXP, the Secure Exchange Protocols: an AngularJS application whose pages
-- share one controller and one session, and the desktop shell that displays it.
--
-- The parts, and the files that model them. Paths of the code are relative to the repository.
--
-- - Common: lists over the native numbers, texts, and the parts of JavaScript that the pages lean
--   on. A value that may be undefined or null is an `Option`; a handler that may throw returns an
--   `Outcome`, which holds the state that the handler leaves behind in both cases.
-- - Client: what outlives a page. Client/Controller is the scope `app` of appController in
--   src/main/js/modules/app.js (configHeader is `config_header`), Client/State the session, the
--   router's current and requested page, and the REST classes of src/main/js/modules/restApi.js;
--   Client/Http the requests. Requests are recorded, latest first, in `sent`.
-- - Users, Items, Search, Settings, Contracts, Messages: the pages of src/main/js/modules/users.js,
--   myItems.js, search.js, settings.js with contact.js, contracts.js and messages.js. The scope of a
--   page is a record; `open_…` is the body of its controller, `submit` and the like the functions it
--   puts into the scope, `…_loaded`, `…_reply` and `…_failed` the callbacks of its requests,
--   `start`, `finish` and `node_received` (or names alike) those of its streams.
-- - Runs of a page, with the server's answers at any time: Messages/Inbox/Runs and Order,
--   Contracts/Form/Runs, Contracts/View/Runs, Messages/Compose/Runs, Search/Streams and
--   Search/Liveness, and `act_all` in the Laws of a page.
-- - Results: the list without repetitions that search.js and messages.js both fill from a stream; in
--   Results/Shown its order is forgotten by a quotient.
-- - Session: the pages together. `open_page` runs the controller of a page, `enter` follows a
--   requested transition, and `Step`, `Reach` and `Along` are the runs of the client, in any order of
--   links, clicks and answers.
-- - Session/Routes: the states that each module declares to ui-router, and the page of a URL.
-- - Session/Refinement: the session as user, token and server, and what each step makes of it.
-- - Session/Servers, Session/Writes, Session/EditLink and Session/Races: which servers the requests go
--   to, which steps write, what the top bar's button leads to, and two logins at once. Session/Guard:
--   the pages after a logout.
-- - Client/Hex: the filter 'hex', with the rounding of `Number`.
-- - Client/Query: the query of a URL as a server reads it, for Search/Query and Messages/Compose/Query.
-- - Session/Opening and Session/Moving: interfaces of the operations of a page that is opened, and of
--   a step; a property that has their laws is kept by every page, and by every step but those of a
--   login and a subscription. Session/Tokens, Servers, Home, Laws and Served are their clients.
-- - Server: the server in src/main/java. Server/Api reads the annotations of the classes in
--   controller (one constructor of `Handler` for each method); Server/Authentifier is
--   rest/impl/SimpleAuthentifier.java, Server/Credentials and Server/Users are controller/Users.java,
--   and Server/Contracts is controller/Contracts.java. What the database, the hasher, the random
--   numbers and the signing protocol give is an argument; a method that throws returns `none` and
--   has committed nothing. The loop of `getToken` goes through the texts that are drawn.
-- - Session/Served and Session/Signing: the requests of the client at the server.
-- - Electron: src/main/js/main-electron.js, with one operation per event of the application.
--
-- How they interact: a page changes the client by `go` (a request for a transition, of which the
-- last counts), `header` (the top bar) and `send`; the guard isUserConnected is a `go` to the login
-- page. Streams are numbered in the order of their launch, and an event names the stream it belongs
-- to. src/main/js/SXP-linux-x64/resources/app holds a copy of the same modules.
--
-- Bounds: every loop of the code goes through a list or a text, and needs no fuel. Only the digits of
-- a number in Client/Hex take the number itself as fuel, which is enough since a round divides it by
-- 2 or by 16. The limit of 1000 results is the code's. A text is measured in UTF-16 units where the
-- code reads its length.
--
-- Not modelled: AngularJS, ui-router, jQuery, oboe and its wrapper src/main/js/libs/angular-oboe.js
-- (their callbacks are events that may come in any order the relations allow); the templates; the
-- display of elements, but for the marks that `open` in messages.js sets (Messages/Tabs); the server
-- in Java, whose answers are arguments.
mod Common
pub mod Client
pub mod Contracts
pub mod Electron
pub mod Items
pub mod Messages
pub mod Results
pub mod Search
pub mod Server
pub mod Session
pub mod Settings
pub mod Users
