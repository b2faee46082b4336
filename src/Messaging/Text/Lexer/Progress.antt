-- ===== src/Messaging/Text/Lexer/Progress.antt =====
-- Each match of the lexer of fipa_acl.l takes something of the text.
use Prim.Native.Char.{Char, code}
use g_agent.Base.{
  ℕ, suc, ◌≤◌, ◌<◌, String, List, [], ◌∷◌, Bool, true, false, Option, none, some, ◌==◌, nat_key,
  ◌≡◌, refl, arith, Bool-cases, inl, inr,
}
use g_agent.Messaging.Quoting.{read_body, push_char, newline, quote, backslash}
use g_agent.Messaging.Text.Tokens.{Param, param_texts}
use g_agent.Messaging.Text.Lexer.{
  is_blank, is_alnum, is_word, take_chars, strip_prefix, Scan, at_end, bad, skip, got, first_param,
  or_param, after_quote, next, size,
}

size-take_chars : (s : String) → size (take_chars s).1 ≤ size s
unfolding take_chars
size-take_chars String.[] = omega arith
size-take_chars (String.◌∷◌ c s) = elim (Bool-cases (is_word c)) [
  | inl e ↦ rw e (omega (arith, size-take_chars s))
  | inr e ↦ rw e (omega arith)
]

-- The text that is left, if there is one, has fewer than `n` characters.
Under : ℕ → Option String → Type 0
Under n none = Unit
Under n (some r) = size r < n

strip_prefix-Under : (p s : String) → Under (suc (size s)) (strip_prefix p s)
unfolding strip_prefix Under
strip_prefix-Under String.[] s = omega arith
strip_prefix-Under (String.◌∷◌ d p) String.[] = tt
strip_prefix-Under (String.◌∷◌ d p) (String.◌∷◌ c s) = elim (Bool-cases (code c == code d)) [
  | inl e ↦ rw e (Under-suc (suc (size s)) (strip_prefix p s) (strip_prefix-Under p s))
  | inr e ↦ rw e tt
]
  where
    Under-suc : (n : ℕ) (o : Option String) → Under n o → Under (suc n) o
    Under-suc n none h = tt
    Under-suc n (some r) h = unfold Under in omega (arith, h)

-- The same for a literal and what is behind it.
LiteralUnder : ℕ → Option (String × String) → Type 0
LiteralUnder n none = Unit
LiteralUnder n (some (t, r)) = size r < n

push_char-LiteralUnder :
    (c : Char) (n : ℕ) (o : Option (String × String))
    → LiteralUnder n o
    → LiteralUnder (suc n) (push_char c o)
unfolding LiteralUnder
push_char-LiteralUnder c n none h = tt
push_char-LiteralUnder c n (some (t, r)) h = omega (arith, h)

LiteralUnder-suc :
    (n : ℕ) (o : Option (String × String)) → LiteralUnder n o → LiteralUnder (suc n) o
unfolding LiteralUnder
LiteralUnder-suc n none h = tt
LiteralUnder-suc n (some (t, r)) h = omega (arith, h)

read_body-LiteralUnder : (b : Bool) (s : String) → LiteralUnder (size s) (read_body b s)
unfolding read_body LiteralUnder
read_body-LiteralUnder true String.[] = tt
read_body-LiteralUnder false String.[] = tt
read_body-LiteralUnder true (String.◌∷◌ c s) = elim (Bool-cases (code c == code newline)) [
  | inl e ↦ rw e tt
  | inr e ↦
      rw e (push_char-LiteralUnder _ (size s) (read_body false s) (read_body-LiteralUnder false s))
]
read_body-LiteralUnder false (String.◌∷◌ c s) = elim (Bool-cases (code c == code quote)) [
  | inl e ↦ rw e (omega arith)
  | inr e ↦ elim (Bool-cases (code c == code backslash)) [
    | inl g ↦
        rw (e, g) (LiteralUnder-suc (size s) (read_body true s) (read_body-LiteralUnder true s))
    | inr g ↦
        rw (e, g)
          (push_char-LiteralUnder c (size s) (read_body false s) (read_body-LiteralUnder false s))
  ]
]

-- A match leaves less than there was.
abbrev pub Shorter : ℕ → Scan → Type 0
Shorter n at_end = Unit
Shorter n bad = Unit
Shorter n (skip r) = size r < n
Shorter n (got t r) = size r < n

after_quote-Shorter :
    (n : ℕ) (o : Option (String × String)) → LiteralUnder n o → Shorter (suc n) (after_quote o)
unfolding LiteralUnder
after_quote-Shorter n none h = tt
after_quote-Shorter n (some (t, r)) h = omega (arith, h)

abbrev all_start : List (String × Param) → Bool
all_start [] = true
all_start ((String.[], t) ∷ ps) = false
all_start ((String.◌∷◌ c p, t) ∷ ps) = all_start ps

strip_start :
    (d c : Char) (p s : String)
    → Under (suc (size s)) (strip_prefix (String.◌∷◌ d p) (String.◌∷◌ c s))
unfolding strip_prefix Under
strip_start d c p s = elim (Bool-cases (code c == code d)) [
  | inl e ↦ rw e (strip_prefix-Under p s)
  | inr e ↦ rw e tt
]

or_param-Shorter :
    (n : ℕ) (o : Option String) (t : Param) (later : Scan)
    → Under n o
    → Shorter n later
    → Shorter n (or_param o t later)
unfolding Under
or_param-Shorter n none t later h k = k
or_param-Shorter n (some r) t later h k = h

first_param-Shorter :
    (ps : List (String × Param)) (c : Char) (s : String)
    → all_start ps ≡ true
    → Shorter (suc (size s)) (first_param ps (String.◌∷◌ c s))
unfolding first_param
first_param-Shorter [] c s h = tt
first_param-Shorter ((String.[], t) ∷ ps) c s h = cc
first_param-Shorter ((String.◌∷◌ d p, t) ∷ ps) c s h =
    or_param-Shorter (suc (size s)) (strip_prefix (String.◌∷◌ d p) (String.◌∷◌ c s)) t
      (first_param ps (String.◌∷◌ c s)) (strip_start d c p s) (first_param-Shorter ps c s h)

pub next-Shorter : (s : String) → Shorter (size s) (next s)
unfolding next
next-Shorter String.[] = tt
next-Shorter (String.◌∷◌ c s) = elim (Bool-cases (is_blank c)) [
  | inl a ↦ rw a (omega arith)
  | inr a ↦ elim (Bool-cases (code c == 40)) [
    | inl b ↦ rw (a, b) (omega arith)
    | inr b ↦ elim (Bool-cases (code c == 41)) [
      | inl d ↦ rw (a, b, d) (omega arith)
      | inr d ↦ elim (Bool-cases (code c == 58)) [
        | inl e ↦ rw (a, b, d, e) (first_param-Shorter param_texts c s refl)
        | inr e ↦ elim (Bool-cases (code c == 34)) [
          | inl g ↦
              rw (a, b, d, e, g)
                (after_quote-Shorter (size s) (read_body false s) (read_body-LiteralUnder false s))
          | inr g ↦ elim (Bool-cases (is_alnum c)) [
            | inl k ↦ rw (a, b, d, e, g, k) (omega (arith, size-take_chars s))
            | inr k ↦ rw (a, b, d, e, g, k) tt
          ]
        ]
      ]
    ]
  ]
]
