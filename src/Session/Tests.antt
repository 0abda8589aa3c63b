-- ===== src/Session/Tests.antt =====
-- The session at concrete runs.
use gl_tomsxp.Session.EditLink.{edit_link, to_item, Reach-edit_link}
use gl_tomsxp.Items
use gl_tomsxp.Session.Guard.{Along-guard}
use gl_tomsxp.Session.Refinement.{account_of, turns_to, answers, effect_all, Reach-effect}
use gl_tomsxp.Session.Liveness.{logged_in, login_reachable}
use gl_tomsxp.Common.{
  Bool, ◌||◌, ◌==◌, if◌then◌else◌, Option, String, List, ◌≡◌, refl, none, some, true, false, [],
  ◌∷◌, state,
}
use gl_tomsxp.Client.{Client, initial_client, Page, Class, login, inject, go}
use gl_tomsxp.Users.{open_logout, Answer, Login, login_reply, submit_login}
use gl_tomsxp.Settings.{Password}
use gl_tomsxp.Session.{Along, enter, Step, Reach}
use gl_tomsxp.Session.Routes.{Segment, word, param, IsMatcher, page_at, routes, href}
use gl_tomsxp.Session.Routes.Laws.{page_at-href}
use gl_tomsxp.Session.Tokens.{IsQuiet, IsStamped, Along-IsStamped}
use gl_tomsxp.Session.Laws.{IsFlagged, Reach-IsFlagged}

abbrev answer : Answer
answer = record { error = none; token = some "t"; userid = some "1"; login_name = none }

abbrev page : Login
page = record {
  form_server = "https://example.org";
  form_login = some "ann";
  form_password = some "x";
  error_login = false;
  error_server = false;
}

-- A client that has used the class of items, and then logs in to another server.
abbrev used : Client
used = inject Class.item initial_client

abbrev moved : Client
moved = (state (login_reply (some answer) ((submit_login (used, page)).0, page))).0

moving : Reach used moved
moving =
    Reach.next (Reach.next Reach.here (Step.logs_in page)) (Step.login_answered (some answer) page)

Reach-IsFlagged_example : IsFlagged moved
unfolding inject initial_client
Reach-IsFlagged_example = Reach-IsFlagged moving (λ e. cc)

abbrev password_page : Password
password_page = record {
  form = none;
  error = false;
  changed = true;
  error_login = false;
  error_server = false;
}

-- A matcher by recursion on both lists.
matches : List Segment → List String → Option (Option String)
matches [] [] = some none
matches [] (v ∷ vs) = none
matches (s ∷ ss) [] = none
matches (word w ∷ ss) (v ∷ vs) = if w == v then matches ss vs else none
matches (param ∷ []) (v ∷ []) = some (some v)
matches (param ∷ ss) (v ∷ vs) = none

matches-IsMatcher : IsMatcher matches
unfolding matches
matches-IsMatcher = record {
  both_end = refl;
  url_longer = λ v vs. refl;
  url_shorter = λ s ss. elim s [ word w ↦ refl | param ↦ refl ];
  words = λ w v ss vs. refl;
  last_param = λ v. refl;
}

page_at-href_example :
    page_at matches routes ("contracts" ∷ "view" ∷ "7" ∷ []) ≡ Page.view_contract (some "7")
unfolding href
page_at-href_example =
    page_at-href matches (Page.view_contract (some "7")) matches-IsMatcher (λ e. cc)

-- A client that holds a token, leaves its session, and goes to its items.
abbrev holder : Client
holder = record initial_client { token = some "t" }

abbrev left : Client
left = enter (go Page.my_items_view (enter (go Page.logout holder)))

leaving : Along IsQuiet holder left
leaving =
    Along.next
      (Along.next
        (Along.next (Along.next Along.here (Step.navigates Page.logout) tt) Step.enters tt)
        (Step.navigates Page.my_items_view) tt)
      Step.enters tt

Along-IsStamped_example : IsStamped (some "t") left
unfolding initial_client
Along-IsStamped_example = Along-IsStamped (some "t") leaving (record { holds = refl; sent = tt })

Reach-effect_example :
    account_of moved
    ≡ effect_all (turns_to "https://example.org" ∷ answers answer ∷ []) (account_of used)
unfolding moving
Reach-effect_example = Reach-effect moving

login_reachable_example : (logged_in page answer left).app.user_id ≡ some "1"
login_reachable_example = (login_reachable left page answer "1" refl refl).3

abbrev filled_page : Password
filled_page = record password_page {
  form = some (record { previous = some "a"; pass1 = some "b"; pass2 = some "b" });
}

abbrev other_page : Login
other_page = record page { form_server = "https://example.com" }

-- The two servers of the run `moving`.
abbrev known_server : String → Bool
known_server b = b == "https://localhost:8081" || b == "https://example.org"

-- The page of an item, and then the page of a found item before it has arrived.
abbrev viewing : Client
viewing =
    enter (
      go (Page.search_view_item (some "9")) (enter (go (Page.my_items_view_one (some "7")) holder)))

view_run : Reach holder viewing
view_run =
    Reach.next
      (Reach.next
        (Reach.next (Reach.next Reach.here (Step.navigates (Page.my_items_view_one (some "7"))))
          Step.enters)
        (Step.navigates (Page.search_view_item (some "9"))))
      Step.enters

Reach-edit_link_example : edit_link viewing.app ≡ to_item (some "7")
unfolding view_run go
Reach-edit_link_example = Reach-edit_link view_run

-- An item is looked at, and deleted.
abbrev old_item : Items.Item
old_item = record { id = some "7"; title = none; description = none }

Along-guard_example : (enter (go Page.my_items_view (open_logout holder))).pending ≡ some login
unfolding go
Along-guard_example =
    Along-guard holder Page.my_items_view
      (Along.next Along.here (Step.navigates Page.my_items_view) tt) refl
