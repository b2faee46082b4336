-- ===== src/Messaging/Text/Parser/Errors.antt =====
-- The token lists and texts that the parser of fipa_acl.y refuses.
use mathlib.Core.Option
use g_agent.Base.{List, [], ◌∷◌, ◌++◌ as ◌then◌, none, some, ◌≡◌, refl, Option-cases, inl, inr}
use g_agent.Messaging.Message.{AclMessage}
use g_agent.Messaging.Text.Tokens.{Token}
use g_agent.Messaging.Text.Parser.{Place, at_finish, Parse, accept, move_at, parse_tokens}

-- Where the end of the input is accepted, no token is.
accepted-move_at :
    (q : Place) (s : Parse) (t : Token) (m : AclMessage)
    → accept q s ≡ some m
    → move_at q t s ≡ none
unfolding move_at
accepted-move_at at_finish s t m h = refl
accepted-move_at _ s t m h = cc

-- A message ends its text: if the tokens `ts` are read as a message, they are refused with any more
-- tokens behind them. So no text is a message whose tokens go on, and none is cut off inside one.
pub parse_tokens-more :
    (s : Parse) (ts : List Token) (m : AclMessage) (t : Token) (us : List Token)
    → parse_tokens s ts ≡ some m
    → parse_tokens s (ts then (t ∷ us)) ≡ none
unfolding parse_tokens Option.bind
parse_tokens-more s [] m t us h = rw (accepted-move_at s.place s t m h) refl
parse_tokens-more s (x ∷ ts) m t us h = elim (Option-cases (move_at s.place x s)) [
  | inl e ↦ rw e refl
  | inr (r, e) ↦ rw e (parse_tokens-more r ts m t us (rw e at h))
]
