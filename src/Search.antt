-- ===== src/Search.antt =====
-- The search page (src/main/js/modules/search.js): a stream of results by `Oboe`, and the page of
-- one result. Streams are numbered in the order in which they are launched.
pub mod Laws
pub mod Streams
pub mod Liveness
pub mod Query
mod Tests
use gl_tomsxp.Common.{
  ℕ, suc, ◌+◌, ◌∷◌, [], String, Option, none, some, Bool, true, false, List, length, nat_eq, ◌||◌,
  if◌then◌else◌, shown, concat, Outcome, done, threw,
}
use gl_tomsxp.Client.{Client, empty_header, flag, Class, item, get, header, inject, call_class}
use gl_tomsxp.Results.{push_result, push_all}

pub record Item : Type 0 where
  pub id : Option String
  pub title : Option String

-- `$scope.status`
pub data Status : Type 0 where
  unset started finished : Status

-- The scope, and what the page asked of `Oboe`: the URLs of the streams launched, by number, and
-- the streams aborted, each newest first.
pub record Search : Type 0 where
  pub research : Option String
  pub results : List Item
  pub stream : Option ℕ
  pub status : Status
  pub error_search : Bool
  pub search_item : Bool
  pub launched : List String
  pub aborted : List ℕ

unfoldable pub open_search : Client → Client × Search
unfolding header
open_search c = (
  header (record empty_header { title = some "Search" }) c,
  record {
    research = none;
    results = [];
    stream = none;
    status = unset;
    error_search = false;
    search_item = false;
    launched = [];
    aborted = [];
  },
)

-- `$scope.pushResult`
unfoldable pub push : Option Item → Search → Search
unfolding push_result
push obj s = record s { results = push_result (λ r. r.id) obj s.results }

-- `stream.abort()` where there is a stream
abort_running : Search → Search
abort_running s = elim s.stream [ none ↦ s | some n ↦ record s { aborted = n ∷ s.aborted } ]

-- `$scope.search`; the handle of the old stream stays until the new one starts.
unfoldable pub search : String → Search → Search
unfolding abort_running
search server s =
    let s' : Search =
      abort_running (record s { results = []; error_search = false; search_item = true }) in
    record s' {
      launched =
          concat server (concat "/api/search/simple?title=" (shown s.research)) ∷ s'.launched;
    }

-- The callback `start` of stream `n`.
unfoldable pub start : ℕ → Search → Search
start n s = record s { stream = some n; status = started }

-- The callback `done`.
unfoldable pub finish : Search → Search
finish s = record s { status = finished }

-- The loop over a node that is not empty.
push_node : List (Option Item) → Search → Search
unfolding push_all
push_node [] s = s
push_node (x ∷ node) s = record s {
  results = push_all (λ r. r.id) (x ∷ node) s.results;
  search_item = false;
}

abbrev is_empty : List (Option Item) → Bool
is_empty [] = true
is_empty (x ∷ node) = false

-- `$scope.stream.abort()`, which throws where there is no stream, and the two lines below it.
stop : Search → Outcome Search
stop s = elim s.stream [
  | none ↦ threw s
  | some n ↦ done (record s { aborted = n ∷ s.aborted; stream = none; search_item = false })
]

-- The lines behind the loop.
close_node : Bool → Search → Outcome Search
unfolding stop
close_node empty s =
    let s' : Search = record s { error_search = nat_eq (length s.results) 0 } in
    if nat_eq (length s.results) 1000 || empty then stop s' else done s'

-- A node arrives; `none` is the node null.
unfoldable pub node_received : Option (List (Option Item)) → Search → Outcome Search
unfolding push_node close_node
node_received none s = close_node true s
node_received (some node) s = close_node (is_empty node) (push_node node s)

-- The state 'searchViewItem': the item is asked for, and shown when it arrives.
unfoldable pub open_search_view_item : Option String → Client → Client
unfolding inject call_class
open_search_view_item id c = call_class item get id [] (inject item c)

unfoldable pub search_view_item_loaded : Option String → Item → Client → Client
unfolding header
search_view_item_loaded id found c =
    header
      (record {
        back = some (flag true);
        title = some (concat "Search : " (shown found.title));
        context_button = some (some "null");
        context_id = some id;
      })
      c
