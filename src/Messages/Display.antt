-- ===== src/Messages/Display.antt =====
-- The controller 'display' of src/main/js/modules/messages.js: a list of conversations of which one
-- is shown.
pub mod Laws
use gl_tomsxp.Common.{
  ℕ, String, Option, none, some, Bool, true, false, List, [], ◌∷◌, get_elem?, set, Outcome, done,
  threw,
}

pub record Mail : Type 0 where
  pub sender : String
  pub date : String
  pub text : String

pub record Talk : Type 0 where
  pub show : Bool
  pub id : ℕ
  pub name : String
  pub activity : String
  pub mails : List Mail

-- `this.users` and the variable `currentUser`.
pub record Display : Type 0 where
  pub users : List Talk
  pub current_user : ℕ

abbrev mail : String → String → String → Mail
mail sender date text = record { sender = sender; date = date; text = text }

unfoldable pub initial_display : Display
initial_display = record {
  current_user = 0;
  users =
      record {
        show = true;
        id = 0;
        name = "Bob";
        activity = "active";
        mails = mail "Me" "3 hours ago" "carrot ?" ∷ mail "Bob" "2 hours ago" "potatoes ?" ∷ [];
      }
      ∷ record {
        show = false;
        id = 1;
        name = "Alice";
        activity = "";
        mails = mail "Alice" "1 hours ago" "You there?" ∷ [];
      }
      ∷ record {
        show = false;
        id = 2;
        name = "User 3";
        activity = "";
        mails =
            mail "User 3" "1 day" "Hello, I'd like to buy you some potatoes pls"
            ∷ mail "Me" "4 hours ago" "Sure, how much do you want ?"
            ∷ mail "User 3" "1 hour ago" "Nice, about 2kg pls."
            ∷ [];
      }
      ∷ [];
}

-- The two assignments to one user; there is none out of range, and the first one throws.
unfoldable pub mark : Bool → String → ℕ → Display → Outcome Display
mark show activity i s = elim (get_elem? s.users i) [
  | none ↦ threw s
  | some t ↦
      done (record s { users = set s.users i (record t { show = show; activity = activity }) })
]

abbrev pub select : ℕ → Outcome Display → Outcome Display
select j (threw s) = threw s
select j (done s) = mark true "active" j (record s { current_user = j })

-- `toggleUserActivity`
unfoldable pub toggle_user_activity : ℕ → Display → Outcome Display
unfolding mark
toggle_user_activity j s = select j (mark false "" s.current_user s)
