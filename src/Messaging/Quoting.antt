-- ===== src/Messaging/Quoting.antt =====
-- String literals: `escapeString` of src/messaging/ACLMessage.cpp writes them, and the string rule
-- of src/messaging/fipa_acl.l reads them.
use Prim.Native.Char.{Char, code}
use Prim.Native.String.{◌++◌}
use text.Mathlib.TextLemmas.{cons-append, nil-append}
use text.Mathlib.TextEquality.{Char-path}
use g_agent.Base.{
  String, ◌≡◌, refl, Bool, true, false, Option, none, some, Bool-cases, inl, inr, ◌==◌, nat_key,
  nat_beq_iff, if◌then◌else◌,
}

-- The characters by which a literal is written: `"`, `\`, `n` and `t`.
abbrev pub quote : Char
quote = "\""

abbrev pub backslash : Char
backslash = "\\"

abbrev letter_n : Char
letter_n = "n"

abbrev letter_t : Char
letter_t = "t"

abbrev pub newline : Char
newline = "\n"

abbrev pub tabulator : Char
tabulator = "\t"

-- One turn of the loop of `escapeString`, in front of what the later turns write.
unfoldable pub escape_char : Char → String → String
escape_char c rest =
    if code c == code quote
    then String.◌∷◌ backslash (String.◌∷◌ quote rest)
    else if code c == code backslash
    then String.◌∷◌ backslash (String.◌∷◌ backslash rest)
    else if code c == code newline
    then String.◌∷◌ backslash (String.◌∷◌ letter_n rest)
    else if code c == code tabulator
    then String.◌∷◌ backslash (String.◌∷◌ letter_t rest)
    else String.◌∷◌ c rest

-- The loop, and the closing quote.
unfoldable pub escape_loop : String → String
unfolding escape_char
escape_loop String.[] = String.◌∷◌ quote String.[]
escape_loop (String.◌∷◌ c s) = escape_char c (escape_loop s)

unfoldable pub escape_string : String → String
unfolding escape_loop
escape_string s = String.◌∷◌ quote (escape_loop s)

-- The character that stands for `\c`.
unescape_char : Char → Char
unescape_char c =
    if code c == code letter_n then newline else if code c == code letter_t then tabulator else c

abbrev pub push_char : Char → Option (String × String) → Option (String × String)
push_char c none = none
push_char c (some (s, rest)) = some (String.◌∷◌ c s, rest)

-- The rest of a literal, behind a backslash or not: its value, and the text behind the closing
-- quote. The rule's `\\.` takes no newline, and a text that ends inside a literal fits no rule.
unfoldable pub read_body : Bool → String → Option (String × String)
unfolding unescape_char
read_body escaped String.[] = none
read_body true (String.◌∷◌ c s) =
    let rest = read_body false s in
    if code c == code newline then none else push_char (unescape_char c) rest
read_body false (String.◌∷◌ c s) =
    let behind = read_body true s in
    let rest = read_body false s in
    if code c == code quote
    then some (String.[], s)
    else if code c == code backslash
    then behind
    else push_char c rest

unfoldable pub read_string : String → Option (String × String)
unfolding read_body
read_string String.[] = none
read_string (String.◌∷◌ c s) = if code c == code quote then read_body false s else none

same_char : (c d : Char) → (code c == code d) ≡ true → c ≡ d
same_char c d h = Char-path c d ((nat_beq_iff (code c) (code d)).0 h)

read_body-escape_char :
    (c : Char) (s t rest : String)
    → read_body false t ≡ some (s, rest)
    → read_body false (escape_char c t) ≡ some (String.◌∷◌ c s, rest)
unfolding read_body escape_char
read_body-escape_char c s t rest h = elim (Bool-cases (code c == code quote)) [
  | inl e ↦ rw (same_char c quote e) (rw h)
  | inr a ↦ elim (Bool-cases (code c == code backslash)) [
    | inl e ↦ rw (same_char c backslash e) (rw h)
    | inr b ↦ elim (Bool-cases (code c == code newline)) [
      | inl e ↦ rw (same_char c newline e) (rw h)
      | inr n ↦ elim (Bool-cases (code c == code tabulator)) [
        | inl e ↦ rw (same_char c tabulator e) (rw h)
        | inr d ↦ rw (a, b, n, d) (rw (a, b, h))
      ]
    ]
  ]
]

escape_char-append :
    (c : Char) (t rest : String) → escape_char c t ++ rest ≡ escape_char c (t ++ rest)
unfolding escape_char
escape_char-append c t rest = elim (Bool-cases (code c == code quote)) [
  | inl e ↦ rw e (simp cons-append)
  | inr a ↦ elim (Bool-cases (code c == code backslash)) [
    | inl e ↦ rw (a, e) (simp cons-append)
    | inr b ↦ elim (Bool-cases (code c == code newline)) [
      | inl e ↦ rw (a, b, e) (simp cons-append)
      | inr n ↦ elim (Bool-cases (code c == code tabulator)) [
        | inl e ↦ rw (a, b, n, e) (simp cons-append)
        | inr d ↦ rw (a, b, n, d) (simp cons-append)
      ]
    ]
  ]
]

read_body-quote : (rest : String) → read_body false (String.◌∷◌ quote rest) ≡ some (String.[], rest)
unfolding read_body
read_body-quote rest = refl

pub read_body-escape_loop :
    (s rest : String) → read_body false (escape_loop s ++ rest) ≡ some (s, rest)
unfolding escape_loop
read_body-escape_loop String.[] rest =
    rw (cons-append quote String.[] rest, nil-append rest) (read_body-quote rest)
read_body-escape_loop (String.◌∷◌ c s) rest =
    rw (escape_char-append c (escape_loop s) rest)
      (read_body-escape_char c s _ rest (read_body-escape_loop s rest))

-- The lexer reads a written literal back: its value is the text that was written, whatever
-- characters it has, and what follows the literal is left.
pub read_string-escape_string :
    (s rest : String) → read_string (escape_string s ++ rest) ≡ some (s, rest)
unfolding read_string escape_string
read_string-escape_string s rest = rw cons-append (read_body-escape_loop s rest)
