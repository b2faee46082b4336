-- ===== src/Messaging/Text/Lexer.antt =====
-- The lexer of src/messaging/fipa_acl.l. Flex takes the longest match and, of equal ones, the first
-- rule: a run of word characters is one token, which is a keyword if it is the whole run. The positions
-- in `driver.loc` only go into error texts and are left out.
pub mod Progress
pub mod Reading
pub mod Fuel
use mathlib.Core.Option
use Prim.Native.Char.{Char, code}
use g_agent.Base.{
  ℕ, zero, suc, String, List, [], ◌∷◌, Bool, true, false, ◌&&◌, ◌||◌, Option, none, some,
  if◌then◌else◌, leb, ◌==◌, nat_key,
}
use g_agent.Messaging.Quoting.{read_body}
use g_agent.Messaging.Text.Tokens.{
  Token, lparen, rparen, param, word, str, Param, param_texts, keywords, find_word,
}

abbrev pub is_blank : Char → Bool
is_blank c = code c == 32 || code c == 9 || code c == 13 || code c == 10

abbrev pub is_alnum : Char → Bool
is_alnum c =
    (leb 48 (code c) && leb (code c) 57)
    || (leb 65 (code c) && leb (code c) 90)
    || (leb 97 (code c) && leb (code c) 122)

-- A letter, a digit, or one of `_-.@:/`.
abbrev pub is_word : Char → Bool
is_word c =
    is_alnum c
    || code c == 95
    || code c == 45
    || code c == 46
    || code c == 64
    || code c == 58
    || code c == 47

unfoldable pub take_chars : String → String × String
take_chars String.[] = (String.[], String.[])
take_chars (String.◌∷◌ c s) =
    let (w, r) = take_chars s in
    if is_word c then (String.◌∷◌ c w, r) else (String.[], String.◌∷◌ c s)

-- What follows `p`.
unfoldable pub strip_prefix : String → String → Option String
strip_prefix String.[] s = some s
strip_prefix (String.◌∷◌ d p) String.[] = none
strip_prefix (String.◌∷◌ d p) (String.◌∷◌ c s) =
    let rest = strip_prefix p s in if code c == code d then rest else none

pub data Scan : Type 0 where
  at_end bad : Scan
  skip : String → Scan
  got : Token → String → Scan

abbrev pub or_param : Option String → Param → Scan → Scan
or_param none t next_params = next_params
or_param (some r) t next_params = got (param t) r

-- No parameter's text is the front of another's, so the first that fits is the longest.
unfoldable pub first_param : List (String × Param) → String → Scan
first_param [] s = bad
first_param ((p, t) ∷ ps) s = or_param (strip_prefix p s) t (first_param ps s)

abbrev pub after_quote : Option (String × String) → Scan
after_quote none = bad
after_quote (some (t, r)) = got (str t) r

-- One match: a blank, a token, or a character that no rule takes.
unfoldable pub next : String → Scan
next String.[] = at_end
next (String.◌∷◌ c s) =
    if is_blank c
    then skip s
    else if code c == 40
    then got lparen s
    else if code c == 41
    then got rparen s
    else if code c == 58
    then first_param param_texts (String.◌∷◌ c s)
    else if code c == 34
    then after_quote (read_body false s)
    else if is_alnum c
    then got (find_word (String.◌∷◌ c (take_chars s).0) keywords) (take_chars s).1
    else bad

-- The tokens of a text, or a character that no rule takes; `spent` is the fuel's.
pub data Lexed : Type 0 where
  spent bad_char : Lexed
  lexed : List Token → Lexed

abbrev pub add_token : Token → Lexed → Lexed
add_token t spent = spent
add_token t bad_char = bad_char
add_token t (lexed ts) = lexed (t ∷ ts)

abbrev pub after_scan : (String → Lexed) → Scan → Lexed
after_scan go at_end = lexed []
after_scan go bad = bad_char
after_scan go (skip r) = go r
after_scan go (got t r) = add_token t (go r)

-- The whole text, with fuel.
unfoldable pub lex : ℕ → String → Lexed
lex zero s = spent
lex (suc f) s = after_scan (lex f) (next s)

-- `yy_scan_string(input.c_str())` sees the text up to its first NUL.
unfoldable pub until_nul : String → String
until_nul String.[] = String.[]
until_nul (String.◌∷◌ c s) =
    let rest = until_nul s in if code c == 0 then String.[] else String.◌∷◌ c rest

-- The count of characters.
abbrev pub size : String → ℕ
size String.[] = 0
size (String.◌∷◌ c s) = suc (size s)

-- A match takes a character at least, so the size is fuel enough.
unfoldable pub tokens_of : String → Lexed
tokens_of s = let t = until_nul s in lex (suc (size t)) t
