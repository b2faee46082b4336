-- ===== src/Messaging/Text/Lexer/Fuel.antt =====
-- The fuel of the lexer of fipa_acl.l, which stands for the loop over the matches.
use g_agent.Messaging.Text.Tokens.{Token}
use g_agent.Base.{Bool, true, false, [], ℕ, zero, suc, ◌<◌, String, ◌≡◌, refl, ap, arith}
use g_agent.Messaging.Text.Lexer.{
  Lexed, spent, bad_char, lexed, add_token, Scan, at_end, bad, skip, got, after_scan, next, size,
  lex, until_nul, tokens_of,
}
use g_agent.Messaging.Text.Lexer.Progress.{Shorter, next-Shorter}

after_scan-Shorter :
    (n f g : ℕ) (q : Scan)
    → Shorter n q
    → ((r : String) → size r < n → lex f r ≡ lex g r)
    → after_scan (lex f) q ≡ after_scan (lex g) q
after_scan-Shorter n f g at_end h k = refl
after_scan-Shorter n f g bad h k = refl
after_scan-Shorter n f g (skip r) h k = k r h
after_scan-Shorter n f g (got t r) h k = ap (add_token t) (k r h)

any_fuel : (f g : ℕ) (s : String) → size s < f → size s < g → lex f s ≡ lex g s
unfolding lex
any_fuel zero g s h k = absurd (omega (arith, h))
any_fuel (suc f) zero s h k = absurd (omega (arith, k))
any_fuel (suc f) (suc g) s h k =
    after_scan-Shorter (size s) f g (next s) (next-Shorter s)
      (λ r shorter. any_fuel f g r (omega (arith, shorter, h)) (omega (arith, shorter, k)))

-- The matches on a text one after another, without fuel: they come to the end of the text with its
-- tokens, or to a character that no rule takes.
pub data Lexes : String → Lexed → Type 0 where
  ends : {s : String} → next s ≡ at_end → Lexes s (lexed [])
  refuses : {s : String} → next s ≡ bad → Lexes s bad_char
  skips : {s r : String} {o : Lexed} → next s ≡ skip r → Lexes r o → Lexes s o
  takes :
      {s r : String} {t : Token} {o : Lexed}
      → next s ≡ got t r
      → Lexes r o
      → Lexes s (add_token t o)

after_scan-Lexes :
    (f : ℕ) (s : String) (q : Scan)
    → next s ≡ q
    → Shorter (size s) q
    → ((r : String) → size r < size s → Lexes r (lex f r))
    → Lexes s (after_scan (lex f) q)
after_scan-Lexes f s at_end e h k = ends e
after_scan-Lexes f s bad e h k = refuses e
after_scan-Lexes f s (skip r) e h k = skips e (k r h)
after_scan-Lexes f s (got t r) e h k = takes e (k r h)

lex-Lexes : (f : ℕ) (s : String) → size s < f → Lexes s (lex f s)
unfolding lex
lex-Lexes zero s h = absurd (omega (arith, h))
lex-Lexes (suc f) s h =
    after_scan-Lexes f s (next s) refl (next-Shorter s)
      (λ r shorter. lex-Lexes f r (omega (arith, shorter, h)))

-- The fuel has lasted.
abbrev pub has_ended : Lexed → Bool
has_ended spent = false
has_ended _ = true

has_ended-add_token :
    (t : Token) (o : Lexed) → has_ended o ≡ true → has_ended (add_token t o) ≡ true
has_ended-add_token t spent h = h
has_ended-add_token t bad_char h = refl
has_ended-add_token t (lexed ts) h = refl

Lexes-has_ended : {s : String} {o : Lexed} → Lexes s o → has_ended o ≡ true
Lexes-has_ended (ends e) = refl
Lexes-has_ended (refuses e) = refl
Lexes-has_ended (skips e l) = Lexes-has_ended l
Lexes-has_ended (takes {t = t} {o = o} e l) = has_ended-add_token t o (Lexes-has_ended l)

-- The lexer ends on every text: its matches up to the first NUL are finitely many, after which it has
-- the tokens or a character that no rule takes, and never spent its fuel; `tokens_of` gives that result,
-- as does every fuel above the count of the characters.
pub lex-tokens_of :
    (f : ℕ) (s : String)
    → size (until_nul s) < f
    → Lexes (until_nul s) (tokens_of s)
      × (has_ended (tokens_of s) ≡ true)
      × (lex f (until_nul s) ≡ tokens_of s)
unfolding tokens_of
lex-tokens_of f s h =
    let matches = lex-Lexes (suc (size (until_nul s))) (until_nul s) (omega arith) in
    (matches, Lexes-has_ended matches, any_fuel f _ (until_nul s) h (omega arith))
