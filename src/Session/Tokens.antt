-- ===== src/Session/Tokens.antt =====
-- The header Auth-Token over time: which token the requests bear (src/main/js/modules/users.js).
use gl_tomsxp.Common.{inl, inr, ◌∙◌, ◌⊎◌, All, ◌≡◌, String, Option, none, arith}
use gl_tomsxp.Client.{inject, is_user_connected, send, Request, Client, go}
use gl_tomsxp.Users.{submit_login, submit_subscribe}
use gl_tomsxp.Session.Opening.{Opening, Opens-token}
use gl_tomsxp.Session.Moving.{Moving, Presses-token, Step-Moving}
use gl_tomsxp.Session.{Along, Step}

-- The token `t`, or none: the requests of `Oboe` that search bear none.
abbrev pub Bears : Option String → Request → Type 0
Bears t r = (r.token ≡ none) ⊎ (r.token ≡ t)

-- The client holds the token `t`, and every request it has sent bears it, or none.
pub record IsStamped (t : Option String) (c : Client) : Type 0 where
  pub holds : c.token ≡ t
  pub sent : All (Bears t) c.sent

-- The steps other than the answers to a login and to a subscription.
abbrev pub IsQuiet : (c d : Client) → Step c d → Type 0
IsQuiet _ _ (Step.login_answered a s) = ⊥
IsQuiet _ _ (Step.subscribe_answered a known) = ⊥
IsQuiet _ _ _ = Unit

IsStamped-Opening : (t : Option String) → Opening (IsStamped t)
unfolding go inject is_user_connected send
IsStamped-Opening t = record {
  goes = λ p c h. record { holds = h.holds; sent = h.sent };
  shows = λ bar c same h. record { holds = h.holds; sent = h.sent };
  injects = λ k c h. record { holds = ground (arith, h.holds); sent = ground (arith, h.sent) };
  guards = λ c h. record { holds = ground (arith, h.holds); sent = ground (arith, h.sent) };
  sends = λ r c o h. record { holds = h.holds; sent = (inr (Opens-token o ∙ h.holds), h.sent) };
  leaves = λ c h. record { holds = h.holds; sent = h.sent };
  enters = λ p c h. record { holds = h.holds; sent = h.sent };
}

IsStamped-Moving : (t : Option String) → Moving (IsStamped t)
unfolding send
IsStamped-Moving t = record {
  opening = IsStamped-Opening t;
  presses = λ r c q h. record { holds = h.holds; sent = (bears r c h (Presses-token q), h.sent) };
}
  where
    bears :
        (r : Request) (c : Client)
        → IsStamped t c
        → (r.token ≡ none) ⊎ (r.token ≡ c.token)
        → Bears t r
    bears r c h (inl e) = inl e
    bears r c h (inr e) = inr (e ∙ h.holds)

Step-IsStamped :
    {c d : Client} (t : Option String) (step : Step c d)
    → IsQuiet c d step
    → IsStamped t c
    → IsStamped t d
unfolding submit_login submit_subscribe go
Step-IsStamped t (Step.logs_in s) q h = record {
  holds = ground (arith, h.holds);
  sent = ground (arith, h.holds, h.sent);
}
Step-IsStamped t (Step.subscribes s) q h = record {
  holds = ground (arith, h.holds);
  sent = ground (arith, h.holds, h.sent);
}
Step-IsStamped t (Step.login_answered a s) q h = absurd q
Step-IsStamped t (Step.subscribe_answered a known) q h = absurd q
Step-IsStamped t step q h = Step-Moving (IsStamped-Moving t) step q h

-- A client that holds a token, and whose requests all bear it or none, stays so until the next answer
-- to a login or to a subscription, in every order of other steps, a logout included.
pub Along-IsStamped :
    {c d : Client} (t : Option String) → Along IsQuiet c d → IsStamped t c → IsStamped t d
Along-IsStamped t Along.here h = h
Along-IsStamped t (Along.next r step q) h = Step-IsStamped t step q (Along-IsStamped t r h)
