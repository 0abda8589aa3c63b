-- ===== src/Client/Http.antt =====
-- Requests to the REST server, as the pages issue them (src/main/js/modules/restApi.js and the
-- calls of `$http` and `Oboe`). Sending them and building the final URL is the libraries' work.
use gl_tomsxp.Common.{String, Option, none, some, List}

pub data Verb : Type 0 where
  get post put delete : Verb

-- Which library sends the request: `$http`, a `$resource` class, or `Oboe`.
pub data Channel : Type 0 where
  http resource oboe : Channel

-- A field of a body: undefined or null, a text, or an array of texts.
pub data Json : Type 0 where
  missing : Json
  text : String → Json
  texts : List (Option String) → Json

abbrev pub json : Option String → Json
json o = elim o [ none ↦ missing | some t ↦ text t ]

pub record Request : Type 0 where
  pub channel : Channel
  pub verb : Verb
  -- the server and the route behind it, as written in the source, and the `:id` of a resource
  pub server : String
  pub route : String
  pub id : Option String
  pub body : List (String × Json)
  -- the header 'Auth-Token'
  pub token : Option String
