-- ===== src/Messaging/Text/Lexer/Reading.antt =====
-- What the lexer of fipa_acl.l makes of texts put together from pieces.
use Prim.Native.Char.{Char, code}
use Prim.Native.String.{◌++◌}
use text.Mathlib.TextLemmas.{cons-append, nil-append}
use g_agent.Base.{
  both_true, ℕ, zero, suc, ◌<◌, String, List, [], ◌∷◌, ◌++◌ as ◌then◌, ◌&&◌, ◌||◌, leb, nat_beq_iff,
  Bool, true, false, if◌then◌else◌, ◌==◌, nat_key, ◌≡◌, refl, sym, ap, ◌∙◌, arith, Bool-cases, inl,
  inr,
}
use g_agent.Messaging.Quoting.{escape_string, escape_loop, read_body-escape_loop, quote}
use g_agent.Messaging.Text.Tokens.{Token, str, keywords, find_word}
use g_agent.Messaging.Text.Lexer.Progress.{next-Shorter}
use g_agent.Messaging.Text.Lexer.{
  is_alnum, is_word, take_chars, skip, got, after_quote, after_scan, lexed, add_token, next, size,
  lex,
}

-- The tokens of the text are `ts`, whatever fuel the lexer has beyond the size.
abbrev pub LexesTo : String → List Token → Type 0
LexesTo s ts = (f : ℕ) → size s < f → lex f s ≡ lexed ts

pub LexesTo-skip : (s r : String) (ts : List Token) → next s ≡ skip r → LexesTo r ts → LexesTo s ts
unfolding lex
LexesTo-skip s r ts e h zero k = absurd (omega arith)
LexesTo-skip s r ts e h (suc f) k =
    let shorter : size r < size s = rw e at (next-Shorter s) in
    ap (after_scan (lex f)) e ∙ h f (omega (arith, shorter, k))

pub LexesTo-got :
    (s r : String) (t : Token) (ts : List Token)
    → next s ≡ got t r
    → LexesTo r ts
    → LexesTo s (t ∷ ts)
unfolding lex
LexesTo-got s r t ts e h zero k = absurd (omega arith)
LexesTo-got s r t ts e h (suc f) k =
    let shorter : size r < size s = rw e at (next-Shorter s) in
    ap (after_scan (lex f)) e ∙ ap (add_token t) (h f (omega (arith, shorter, k)))

-- The matches that lead from a text to a later place in it, with their tokens.
pub data Scans : String → List Token → String → Type 0 where
  here : {s : String} → Scans s [] s
  skips : {s r u : String} {ts : List Token} → next s ≡ skip r → Scans r ts u → Scans s ts u
  gets :
      {s r u : String} {t : Token} {ts : List Token}
      → next s ≡ got t r
      → Scans r ts u
      → Scans s (t ∷ ts) u

pub Scans-LexesTo :
    {s u : String} {ts us : List Token} → Scans s ts u → LexesTo u us → LexesTo s (ts then us)
Scans-LexesTo here h = h
Scans-LexesTo (skips {s} {r} e k) h = LexesTo-skip s r _ e (Scans-LexesTo k h)
Scans-LexesTo (gets {s} {r} {t = t} e k) h = LexesTo-got s r t _ e (Scans-LexesTo k h)

pub Scans-Scans :
    {s u v : String} {ts us : List Token} → Scans s ts u → Scans u us v → Scans s (ts then us) v
Scans-Scans here h = h
Scans-Scans (skips e k) h = skips e (Scans-Scans k h)
Scans-Scans (gets e k) h = gets e (Scans-Scans k h)

-- All characters are word characters, and the first is a letter or a digit.
abbrev pub word_chars : String → Bool
word_chars String.[] = true
word_chars (String.◌∷◌ c s) = is_word c && word_chars s

abbrev pub is_word_text : String → Bool
is_word_text String.[] = false
is_word_text (String.◌∷◌ c s) = is_alnum c && word_chars s

take_chars-append :
    (s : String) (d : Char) (r : String)
    → word_chars s ≡ true
    → is_word d ≡ false
    → take_chars (s ++ String.◌∷◌ d r) ≡ (s, String.◌∷◌ d r)
unfolding take_chars
take_chars-append String.[] d r h e = ap take_chars (nil-append (String.◌∷◌ d r)) ∙ rw e
take_chars-append (String.◌∷◌ c s) d r h e =
    let (first, rest) = both_true (is_word c) (word_chars s) h in
    ap take_chars (cons-append c s (String.◌∷◌ d r))
    ∙ rw first (ap (λ p. (String.◌∷◌ c p.0, p.1)) (take_chars-append s d r rest e))

abbrev alnum_code : ℕ → Bool
alnum_code n = (leb 48 n && leb n 57) || (leb 65 n && leb n 90) || (leb 97 n && leb n 122)

not_alnum : (n k : ℕ) → alnum_code n ≡ true → alnum_code k ≡ false → (n == k) ≡ false
not_alnum n k h e = elim (Bool-cases (n == k)) [
  | inr g ↦ g
  | inl g ↦ absurd (true-false (sym h ∙ ap alnum_code ((nat_beq_iff n k).0 g) ∙ e))
]
  where
    true-false : true ≡ false → ⊥
    true-false h = cc

-- A word in front of a character that is none of a word's is one token.
pub Scans-word :
    (s : String) (d : Char) (r : String)
    → is_word_text s ≡ true
    → is_word d ≡ false
    → Scans (s ++ String.◌∷◌ d r) (find_word s keywords ∷ []) (String.◌∷◌ d r)
unfolding next take_chars
Scans-word String.[] d r h e = cc
Scans-word (String.◌∷◌ c s) d r h e =
    let (alnum, rest) = both_true (is_alnum c) (word_chars s) h in
    let no : (k : ℕ) → alnum_code k ≡ false → (code c == k) ≡ false =
      λ k. not_alnum (code c) k alnum in
    rw (cons-append c s (String.◌∷◌ d r)) (
      gets
        (rw
          (
            no 32 refl,
            no 9 refl,
            no 13 refl,
            no 10 refl,
            no 40 refl,
            no 41 refl,
            no 58 refl,
            no 34 refl,
            alnum,
          )
          (ap (λ p. got (find_word (String.◌∷◌ c p.0) keywords) p.1)
            (take_chars-append s d r rest e)))
        here)

-- A literal is one token, with the text that was quoted.
pub Scans-literal : (s r : String) → Scans (escape_string s ++ r) (str s ∷ []) r
unfolding next escape_string
Scans-literal s r =
    rw (cons-append quote (escape_loop s) r)
      (gets (ap after_quote (read_body-escape_loop s r)) here)
