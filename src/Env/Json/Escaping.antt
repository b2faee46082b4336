-- ===== src/Env/Json/Escaping.antt =====
-- The texts in the answers of src/env/Environnement.cpp, and a reader of JSON strings by RFC 8259.
use Prim.Native.Char.{Char, code}
use Prim.Native.String.{◌++◌}
use text.Mathlib.TextLemmas.{cons-append, nil-append}
use text.Mathlib.TextEquality.{Char-path}
use g_agent.Base.{
  String, Bool, true, false, ◌&&◌, ◌||◌, not, Option, none, some, if◌then◌else◌, ltb, ◌==◌, nat_key,
  nat_beq_iff, ◌≡◌, refl, ap, ◌∙◌, Bool-cases, inl, inr,
}
use g_agent.Env.Json.{quote, backslash, letter_n, letter_r, letter_t, json_char, env_json_escape}

-- A text that JSON can hold in the short escapes: no control characters but line ends and tabulators.
abbrev pub is_fit : Char → Bool
is_fit c = not (ltb (code c) 32) || (code c == 10 || (code c == 13 || code c == 9))

abbrev pub all_fit : String → Bool
all_fit String.[] = true
all_fit (String.◌∷◌ c s) = is_fit c && all_fit s

abbrev carriage_return : Char
carriage_return = "\r"

abbrev newline : Char
newline = "\n"

abbrev tabulator : Char
tabulator = "\t"

abbrev slash : Char
slash = "/"

-- What an escape stands for. The escapes `\b`, `\f` and `\u` are left out: no text here needs them.
unescape : Char → Option Char
unescape c =
    if code c == code quote
    then some quote
    else if code c == code backslash
    then some backslash
    else if code c == code slash
    then some slash
    else if code c == code letter_n
    then some newline
    else if code c == code letter_r
    then some carriage_return
    else if code c == code letter_t
    then some tabulator
    else none

abbrev push_char : Option Char → Option (String × String) → Option (String × String)
push_char none o = none
push_char (some c) none = none
push_char (some c) (some (s, rest)) = some (String.◌∷◌ c s, rest)

-- The rest of a string behind its opening quote, or behind a backslash: its value, and the text behind
-- the closing quote. A control character must be escaped.
pub read_json : Bool → String → Option (String × String)
unfolding unescape
read_json escaped String.[] = none
read_json true (String.◌∷◌ c s) = let rest = read_json false s in push_char (unescape c) rest
read_json false (String.◌∷◌ c s) =
    let behind = read_json true s in
    let rest = read_json false s in
    if code c == code quote
    then some (String.[], s)
    else if code c == code backslash
    then behind
    else if ltb (code c) 32
    then none
    else push_char (some c) rest

same_char : (c d : Char) → (code c == code d) ≡ true → c ≡ d
same_char c d h = Char-path c d ((nat_beq_iff (code c) (code d)).0 h)

abbrev if_fit : Bool → Option (String × String) → Option (String × String)
if_fit b o = if b then o else none

read_json-json_char :
    (c : Char) (t : String)
    → read_json false (json_char c t) ≡ if_fit (is_fit c) (push_char (some c) (read_json false t))
unfolding read_json json_char
read_json-json_char c t = elim (Bool-cases (code c == 34)) [
  | inl e ↦ rw (same_char c quote e) refl
  | inr a ↦ elim (Bool-cases (code c == 92)) [
    | inl e ↦ rw (same_char c backslash e) refl
    | inr b ↦ elim (Bool-cases (code c == 10)) [
      | inl e ↦ rw (same_char c newline e) refl
      | inr n ↦ elim (Bool-cases (code c == 13)) [
        | inl e ↦ rw (same_char c carriage_return e) refl
        | inr r ↦ elim (Bool-cases (code c == 9)) [
          | inl e ↦ rw (same_char c tabulator e) refl
          | inr d ↦ rw (a, b, n, r, d) (rw (a, b) (by_code (ltb (code c) 32)))
        ]
      ]
    ]
  ]
]
  where
    by_code :
        (k : Bool)
        → (if k then none else push_char (some c) (read_json false t))
          ≡ if_fit (not k || false) (push_char (some c) (read_json false t))
    by_code true = refl
    by_code false = refl

json_char-append : (c : Char) (t rest : String) → json_char c t ++ rest ≡ json_char c (t ++ rest)
unfolding json_char
json_char-append c t rest = elim (Bool-cases (code c == 34)) [
  | inl e ↦ rw e (simp cons-append)
  | inr a ↦ elim (Bool-cases (code c == 92)) [
    | inl e ↦ rw (a, e) (simp cons-append)
    | inr b ↦ elim (Bool-cases (code c == 10)) [
      | inl e ↦ rw (a, b, e) (simp cons-append)
      | inr n ↦ elim (Bool-cases (code c == 13)) [
        | inl e ↦ rw (a, b, n, e) (simp cons-append)
        | inr r ↦ elim (Bool-cases (code c == 9)) [
          | inl e ↦ rw (a, b, n, r, e) (simp cons-append)
          | inr d ↦ rw (a, b, n, r, d) (simp cons-append)
        ]
      ]
    ]
  ]
]

-- A text of an answer of the environment, with its closing quote, is a JSON string with that value if
-- its only control characters are line ends and tabulators; any other text makes the answer
-- unreadable.
pub read_json-env_json_escape :
    (s rest : String)
    → read_json false (env_json_escape s ++ ("\"" ++ rest))
      ≡ (if all_fit s then some (s, rest) else none)
unfolding env_json_escape
read_json-env_json_escape String.[] rest =
    rw (nil-append ("\"" ++ rest)) (rw (cons-append quote "" rest) (rw (nil-append rest) closed))
  where
    closed : read_json false (String.◌∷◌ quote rest) ≡ some ("", rest)
    closed = unfold read_json in refl
read_json-env_json_escape (String.◌∷◌ c s) rest =
    ap (read_json false) (json_char-append c (env_json_escape s) ("\"" ++ rest))
    ∙ read_json-json_char c (env_json_escape s ++ ("\"" ++ rest))
    ∙ ap (λ o. if_fit (is_fit c) (push_char (some c) o)) (read_json-env_json_escape s rest)
    ∙ both (is_fit c) (all_fit s)
  where
    both :
        (a b : Bool)
        → if_fit a (push_char (some c) (if b then some (s, rest) else none))
          ≡ (if a && b then some (String.◌∷◌ c s, rest) else none)
    both true true = refl
    both true false = refl
    both false b = refl
