-- ===== src/Messages/Tabs.antt =====
-- `$scope.open` of the page 'messages' (src/main/js/modules/messages.js), by which a click on a
-- conversation marks its tab and its messages. An element is known by its id. What a selector of
-- jQuery selects is a parameter: `none` where jQuery refuses the selector and throws.
pub mod Laws
use gl_tomsxp.Common.{
  Bool, String, Option, none, some, List, [], ◌∷◌, ◌++◌, ◌==◌, concat, any, if◌then◌else◌, Outcome,
  done, threw, ◌>>=◌,
}
use gl_tomsxp.Messages.Inbox.{Chat}

-- The elements that bear the class 'active', and those that bear 'chatActive'.
pub record Marks : Type 0 where
  pub active : List String
  pub chat_active : List String

-- An object as a text, when it is added to one.
abbrev pub text_of_object : Chat → String
text_of_object chat = "[object Object]"

abbrev pub is_in : List String → String → Bool
is_in xs id = any (id ==◌) xs

-- `ids` without those in `xs`.
unfoldable pub without : List String → List String → List String
without xs [] = []
without xs (id ∷ ids) = let rest = without xs ids in if is_in xs id then rest else id ∷ rest

-- `removeClass` and `addClass` at the elements `xs`.
abbrev remove_active : List String → Marks → Marks
remove_active xs m = record m { active = without xs m.active }

abbrev add_active : List String → Marks → Marks
add_active xs m = record m { active = xs ++ without xs m.active }

abbrev remove_chat_active : List String → Marks → Marks
remove_chat_active xs m = record m { chat_active = without xs m.chat_active }

abbrev add_chat_active : List String → Marks → Marks
add_chat_active xs m = record m { chat_active = xs ++ without xs m.chat_active }

module _ (select : String → Option (List String)) where
  -- `angular.element(selector)` and what is done with it.
  change : (List String → Marks → Marks) → String → Marks → Outcome Marks
  change f selector m = elim (select selector) [ none ↦ threw m | some xs ↦ done (f xs m) ]

  -- `$scope.open`; the object itself, and not its name, is added to the selectors.
  unfoldable pub open_chat : Chat → Marks → Outcome Marks
  unfolding change without
  open_chat chat m =
      change remove_active ".tab" m
      >>= change add_active (concat "#tab" (text_of_object chat))
      >>= change remove_chat_active ".well"
      >>= change add_chat_active (concat "#" (text_of_object chat))
