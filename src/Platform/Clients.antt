-- ===== src/Platform/Clients.antt =====
-- What the clients of src/platform share: one connection for one command. What the operating system
-- does about connections is a parameter.
pub mod Lines
pub mod Ams
pub mod Df
use mathlib.Core.Option
use Prim.Native.Char.{Char, code}
use Prim.Native.String.{◌++◌}
use g_agent.Platform.Config.{stoi}
use g_agent.Base.{
  String, Bool, true, false, Option, none, some, if◌then◌else◌, ◌==◌, nat_key, string_key, ◌&&◌,
  not, ℕ, zero, List, [], ℤ, pos, negsuc,
}

-- A server: from what a client writes on a new connection and the server's state, what the server
-- writes back before it closes, and its state then. Nothing if the connection fails.
abbrev pub Server : Type 0 → Type 0
Server S = String → S → Option (String × S)

-- `readline_fd`: the text up to the end of the line or of the input, and what is left.
unfoldable pub read_line : String → String × String
read_line String.[] = ("", "")
read_line (String.◌∷◌ c s) =
    let (line, rest) = read_line s in if code c == 10 then ("", s) else (String.◌∷◌ c line, rest)

-- `substr(0, 2) == "OK"`
unfoldable pub is_ok : String → Bool
is_ok String.[] = false
is_ok (String.◌∷◌ c String.[]) = false
is_ok (String.◌∷◌ c (String.◌∷◌ d s)) = code c == 79 && code d == 75

-- `substr(3)`, which throws on a text that is too short.
unfoldable pub behind_ok : String → Option String
behind_ok (String.◌∷◌ c (String.◌∷◌ d (String.◌∷◌ e s))) = some s
behind_ok _ = none

abbrev pub first_line : {S : Type 0} → Option (String × S) → S → String × S
first_line none s = ("", s)
first_line (some (text, after)) s = ((read_line text).0, after)

-- `request`: the first line of the answer, or nothing for a connection that fails.
unfoldable pub request : {S : Type 0} → Server S → String → S → String × S
request server cmd s = first_line (server (cmd ++ "\n") s) s

-- The result of a call, or an exception of `substr` or `stoi`.
pub data Outcome (A : Type 0) : Type 0 where
  returns : A → Outcome A
  throws : Outcome A

-- `for (int i = 0; i < count; ++i)` runs as often.
abbrev pub turns : ℤ → ℕ
turns (pos n) = n
turns (negsuc n) = zero

-- `resp.substr(0, 2) == "OK"`, which is false for an empty answer.
abbrev pub answered : {S : Type 0} → String × S → Bool × S
answered (resp, s) = (is_ok resp, s)

-- `std::stoi(first.substr(3))`
unfoldable pub count_of : String → Option ℤ
count_of first = Option.bind (behind_ok first) stoi

abbrev pub counted : {A : Type 0} → (ℕ → String → List A) → Option ℤ → String → Outcome (List A)
counted read none rest = throws
counted read (some count) rest = returns (read (turns count) rest)

abbrev pub read_from : {A : Type 0} → (ℕ → String → List A) → String × String → Outcome (List A)
read_from read (first, rest) =
    if not (is_ok first) then returns [] else counted read (count_of first) rest

-- The count in the first line, then as many lines.
abbrev pub read_counted : {A : Type 0} → (ℕ → String → List A) → String → Outcome (List A)
read_counted read text = read_from read (read_line text)

abbrev pub connected :
    {S A : Type 0} → (String → Outcome (List A)) → Option (String × S) → S → Outcome (List A) × S
connected read none s = (returns [], s)
connected read (some (text, after)) s = (read text, after)
