-- ===== src/Client/Laws.antt =====
-- What `configHeader`, `isUserConnected` and the resource classes do for every page
-- (src/main/js/modules/app.js, src/main/js/modules/restApi.js).
use gl_tomsxp.Common.{
  refl, ap, ◌∙◌, Option, List, [], ◌∷◌, ◌≡◌, none, some, true, String, ◌↔◌, arith, is_some,
}
use gl_tomsxp.Client.Pages.{login}
use gl_tomsxp.Client.Controller.{App, Header, flag, show_back_url, config_header, configure_id}
use gl_tomsxp.Client.State.{Client, Class, base, is_user_connected, inject}

-- Of what an earlier page put into the top bar only the context id is left when a page configures
-- the bar, and that only until a page gives an id of its own.
pub config_header_last :
    (g h : Header) (app : App)
    → config_header h (config_header g app) ≡ config_header h (configure_id g.context_id app)
unfolding config_header
config_header_last g h app = ground arith

-- The pages that configure the bar, one after the other.
abbrev pub header_all : List Header → App → App
header_all [] app = app
header_all (g ∷ gs) app = header_all gs (config_header g app)

-- The context id that was given last, or `id` if none was.
abbrev pub last_context_id : Option String → List Header → Option String
last_context_id id [] = id
last_context_id id (g ∷ gs) =
    last_context_id (elim g.context_id [ none ↦ id | some given ↦ given ]) gs

header_all-context_id :
    (gs : List Header) (app : App)
    → (header_all gs app).context_id ≡ last_context_id app.context_id gs
unfolding config_header
header_all-context_id [] app = refl
header_all-context_id (g ∷ gs) app =
    header_all-context_id gs (config_header g app) ∙ ap (λ id. last_context_id id gs) (ground arith)

-- What no page configures.
abbrev SameUser : App → App → Type 0
SameUser a b =
    (b.current_user ≡ a.current_user) × (b.user_id ≡ a.user_id) × (b.user_nick ≡ a.user_nick)

header_all-SameUser : (gs : List Header) (app : App) → SameUser app (header_all gs app)
unfolding config_header
header_all-SameUser [] app = (refl, refl, refl)
header_all-SameUser (g ∷ gs) app =
    let (u, i, n) = header_all-SameUser gs (config_header g app) in
    (u ∙ ground arith, i ∙ ground arith, n ∙ ground arith)

config_header_cong :
    (h : Header) (a b : App)
    → SameUser a b
    → b.context_id ≡ a.context_id
    → config_header h b ≡ config_header h a
unfolding config_header
config_header_cong h a b (u, i, n) e = ground arith

-- After any pages have configured the top bar, the page that configures it now shows what it shows
-- on a fresh bar, but for the context id, which is the one that was given last.
pub config_header-header_all :
    (gs : List Header) (h : Header) (app : App)
    → config_header h (header_all gs app)
      ≡ config_header h (record app { context_id = last_context_id app.context_id gs })
config_header-header_all gs h app =
    config_header_cong h (record app { context_id = last_context_id app.context_id gs })
      (header_all gs app) (header_all-SameUser gs app) (header_all-context_id gs app)

-- The back button is displayed exactly if the page passed `back: true`.
pub show_back_url-config_header :
    (h : Header) (app : App)
    → (show_back_url (config_header h app) ≡ true) ↔ (h.back ≡ some (flag true))
unfolding config_header show_back_url
show_back_url-config_header h app = ground arith

-- `isUserConnected` sets the flag of the side menu exactly if a user id is known, and sends the
-- user to the login page exactly if none is; all else stays.
pub is_user_connected_lem :
    (c : Client)
    → ((is_user_connected c).user_logged ≡ is_some c.app.user_id)
      × ((is_user_connected c).pending
          ≡ (elim c.app.user_id [ none ↦ some login | some id ↦ c.pending ]))
      × ((is_user_connected c).app ≡ c.app)
      × ((is_user_connected c).token ≡ c.token)
      × ((is_user_connected c).sent ≡ c.sent)
unfolding is_user_connected
is_user_connected_lem c = ground arith

-- The server of a class is chosen when the class is first injected, and is kept afterwards.
pub base-inject :
    (j k : Class) (c : Client)
    → (is_some (base j (inject j c).bases) ≡ true)
      × ((b : String) → base k c.bases ≡ some b → base k (inject j c).bases ≡ some b)
unfolding inject
base-inject j k c = ground arith
