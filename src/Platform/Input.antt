-- ===== src/Platform/Input.antt =====
-- What the servers use of `std::istringstream` and `std::to_string`.
pub mod Words
pub mod Numbers
use Prim.Native.Char.{Char, code}
use Prim.Native.String.{◌++◌ as append}
use g_agent.Base.{
  ℕ, zero, suc, ◌+◌, ◌-◌, ◌*◌, ◌/◌, ◌%◌, String, Bool, true, false, ◌&&◌, ◌||◌, if◌then◌else◌, ltb,
  leb, ◌==◌, nat_key, ℤ, pos, negsuc,
}

-- The characters that are not read yet, and whether the stream has not failed.
pub record Input : Type 0 where
  pub rest : String
  pub good : Bool

abbrev pub input : String → Input
input s = record { rest = s; good = true }

abbrev pub is_space : Char → Bool
is_space c = code c == 32 || (leb 9 (code c) && leb (code c) 13)

abbrev pub is_digit : Char → Bool
is_digit c = leb 48 (code c) && leb (code c) 57

skip : String → String
skip String.[] = String.[]
skip (String.◌∷◌ c s) = let after = skip s in if is_space c then after else String.◌∷◌ c s

-- The characters before the first space, and the others.
take_word : String → String × String
take_word String.[] = (String.[], String.[])
take_word (String.◌∷◌ c s) =
    let (word, rest) = take_word s in
    if is_space c then (String.[], String.◌∷◌ c s) else (String.◌∷◌ c word, rest)

word_at : String → String → String × Input
unfolding take_word
word_at String.[] old = (old, record { rest = String.[]; good = false })
word_at (String.◌∷◌ c s) old =
    let (word, rest) = take_word (String.◌∷◌ c s) in (word, record { rest = rest; good = true })

-- `ss >> word`, where `word` holds `old`: a failed read leaves it.
unfoldable pub read_word : Input → String → String × Input
unfolding skip word_at
read_word i old = if i.good then word_at (skip i.rest) old else (old, i)

-- The digits at the front: their value after `n`, and the others.
take_digits : ℕ → String → ℕ × String
take_digits n String.[] = (n, String.[])
take_digits n (String.◌∷◌ c s) =
    let others = take_digits (n * 10 + (code c - 48)) s in
    if is_digit c then others else (n, String.◌∷◌ c s)

abbrev failed : Input
failed = record { rest = ""; good = false }

-- The value of a sign and a magnitude, in 32 bits: one out of range is the nearest and fails.
abbrev signed : Bool → ℕ → String → ℤ × Input
signed false n s =
    if leb n 2147483647 then (pos n, record { rest = s; good = true }) else (pos 2147483647, failed)
signed true zero s = (pos 0, record { rest = s; good = true })
signed true (suc n) s =
    if leb n 2147483647
    then (negsuc n, record { rest = s; good = true })
    else (negsuc 2147483647, failed)

-- What stands at a sign's right: with no digit the value is 0 and the read fails.
magnitude_at : Bool → String → ℤ × Input
unfolding take_digits
magnitude_at sign String.[] = (pos 0, failed)
magnitude_at sign (String.◌∷◌ c s) =
    let (n, rest) = take_digits 0 (String.◌∷◌ c s) in
    if is_digit c then signed sign n rest else (pos 0, failed)

int_at : String → ℤ → ℤ × Input
unfolding magnitude_at
int_at String.[] old = (old, failed)
int_at (String.◌∷◌ c s) old =
    if code c == 45
    then magnitude_at true s
    else if code c == 43
    then magnitude_at false s
    else magnitude_at false (String.◌∷◌ c s)

-- `ss >> n` for an `int n` that holds `old`.
unfoldable pub read_int : Input → ℤ → ℤ × Input
unfolding skip int_at
read_int i old = if i.good then int_at (skip i.rest) old else (old, i)

abbrev digit : ℕ → String
digit n =
    if n == 0
    then "0"
    else if n == 1
    then "1"
    else if n == 2
    then "2"
    else if n == 3
    then "3"
    else if n == 4
    then "4"
    else if n == 5
    then "5"
    else if n == 6
    then "6"
    else if n == 7
    then "7"
    else if n == 8
    then "8"
    else "9"

-- A number has no more digits than its successor has units.
decimal_digits : ℕ → ℕ → String → String
decimal_digits zero n out = out
decimal_digits (suc f) n out =
    let more = decimal_digits f (n / 10) (append (digit (n % 10)) out) in
    if ltb n 10 then append (digit n) out else more

unfoldable pub decimal : ℕ → String
unfolding decimal_digits
decimal n = decimal_digits (suc n) n ""

-- `std::to_string`
unfoldable pub to_string : ℤ → String
unfolding decimal
to_string (pos n) = decimal n
to_string (negsuc n) = append "-" (decimal (suc n))
