-- ===== src/Messages/Compose/Query.antt =====
-- Which users the page 'addMessage' of src/main/js/modules/messages.js asks for.
use gl_tomsxp.Common.{[], none, ◌≡◌, refl, some, ◌∷◌, chars, concat, shown, ◌||◌}
use gl_tomsxp.Client.{get, oboe, Client, Request, call_oboe}
use gl_tomsxp.Client.Query.{value, value-concat, up_to, hash, ampersand, question, Lacks}
use gl_tomsxp.Messages.Compose.{Compose, user_auto_complete}

-- A key in the name of the receiver asks for the users whose nick, as the server reads the address, is
-- the name up to its first `#` or `&`, and not the rest of it, if neither `#` nor `?` stands in the
-- server's address.
-- Escapes are resolved after that.
pub user_auto_complete-value :
    (c : Client) (s : Compose)
    → Lacks hash (chars c.server)
    → Lacks question (chars c.server)
    → (r : Request) × ((user_auto_complete (c, s)).0.sent ≡ r ∷ c.sent)
      × (value "nick" (chars (concat r.server r.route))
          ≡ some (up_to (λ c. hash c || ampersand c) (chars (shown s.receiver_name))))
unfolding user_auto_complete call_oboe
user_auto_complete-value c s h h' = (
  record {
    channel = oboe;
    verb = get;
    server = c.server;
    route = concat "/api/search/users?nick=" (shown s.receiver_name);
    id = none;
    body = [];
    token = none;
  },
  refl,
  value-concat c.server "/api/search/users" "nick" "/api/search/users?nick=" (shown s.receiver_name)
      refl h h' refl refl (refl, refl, refl),
)
