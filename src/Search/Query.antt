-- ===== src/Search/Query.antt =====
-- What a server is asked for by a search (`$scope.search` of src/main/js/modules/search.js).
use gl_tomsxp.Common.{◌≡◌, refl, arith, String, some, ◌∷◌, chars, concat, shown, ◌||◌}
use gl_tomsxp.Client.Query.{value, value-concat, up_to, hash, ampersand, question, Lacks}
use gl_tomsxp.Search.{Search, search}

-- The address of the search at a server.
abbrev pub search_url : String → String → String
search_url server text = concat server (concat "/api/search/simple?title=" text)

-- A search opens a stream whose parameter `title`, as the server reads it, is what was typed up to the
-- first `#` or `&`, and not the rest of it, if neither `#` nor `?` stands in the server's address.
-- Escapes are resolved after that.
pub search-value :
    (server : String) (s : Search)
    → Lacks hash (chars server)
    → Lacks question (chars server)
    → let url = search_url server (shown s.research) in
      ((search server s).launched ≡ url ∷ s.launched)
      × (value "title" (chars url)
          ≡ some (up_to (λ c. hash c || ampersand c) (chars (shown s.research))))
unfolding search
search-value server s h h' = (
  ground arith,
  value-concat server "/api/search/simple" "title" "/api/search/simple?title=" (shown s.research)
      refl h h' refl refl (refl, refl, refl),
)
