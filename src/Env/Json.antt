-- ===== src/Env/Json.antt =====
-- `Environnement::serve` of src/env/Environnement.cpp: the answers to a client. `Floats` is what it
-- uses of C++'s `float`, with how a stream prints one.
pub mod Escaping
use Prim.Native.Char.{Char, code}
use Prim.Native.String.{◌++◌}
use g_agent.Base.{
  ℕ, String, List, [], ◌∷◌, Bool, true, false, Option, none, some, if◌then◌else◌, ◌==◌, nat_key,
  string_key, Map, lookup, length, or_else,
}
use g_agent.Platform.Input.{decimal}
use g_agent.Env.Attributs.{Attributs}
use g_agent.Env.Nsap.{Environnement}
use g_agent.Env.Reports.{Reported}

pub record Floats (F : Type 0) : Type 0 where
  pub stof : String → Option F
  pub shown : F → String
  pub is_zero : F → Bool
  pub zero : F
  pub one : F
  pub five : F

-- The names of the attributes, which a program may change.
pub record Links : Type 0 where
  pub id : String
  pub name : String
  pub pos_x : String
  pub pos_y : String
  pub val : String
  pub shape : String
  pub color : String
  pub pattern : String
  pub size : String
  pub size_x : String
  pub size_y : String
  pub size_z : String

abbrev pub quote : Char
quote = "\""

abbrev pub backslash : Char
backslash = "\\"

abbrev pub letter_n : Char
letter_n = "n"

abbrev pub letter_r : Char
letter_r = "r"

abbrev pub letter_t : Char
letter_t = "t"

-- One turn of the loop, in front of the later ones.
unfoldable pub json_char : Char → String → String
json_char c rest =
    if code c == 34
    then String.◌∷◌ backslash (String.◌∷◌ quote rest)
    else if code c == 92
    then String.◌∷◌ backslash (String.◌∷◌ backslash rest)
    else if code c == 10
    then String.◌∷◌ backslash (String.◌∷◌ letter_n rest)
    else if code c == 13
    then String.◌∷◌ backslash (String.◌∷◌ letter_r rest)
    else if code c == 9
    then String.◌∷◌ backslash (String.◌∷◌ letter_t rest)
    else String.◌∷◌ c rest

-- `env_json_escape`
unfoldable pub env_json_escape : String → String
unfolding json_char
env_json_escape String.[] = String.[]
env_json_escape (String.◌∷◌ c s) = json_char c (env_json_escape s)

unfoldable pub get_text : String → Attributs → String
get_text key attrs = or_else (lookup key attrs) ""

-- A field of an object, with its quotes and the comma behind it.
abbrev pub text_field : String → String → String
text_field name value = "\"" ++ (name ++ ("\":\"" ++ (env_json_escape value ++ "\",")))

module _ {F : Type 0} (floats : Floats F) where
  abbrev read_float : F → Option String → F
  read_float def none = def
  read_float def (some text) = or_else (floats.stof text) def

  unfoldable pub get_float : String → F → Attributs → F
  get_float key def attrs = read_float def (lookup key attrs)

  abbrev number_field : String → F → String
  number_field name value = "\"" ++ (name ++ ("\":" ++ (floats.shown value ++ ",")))

  unfoldable pub agent_json : Links → Attributs → String
  unfolding get_text get_float
  agent_json l attrs =
      "{"
      ++ text_field "id" (get_text l.id attrs)
      ++ text_field "name" (get_text l.name attrs)
      ++ text_field "shape" (get_text l.shape attrs)
      ++ text_field "color" (get_text l.color attrs)
      ++ text_field "pattern" (get_text l.pattern attrs)
      ++ number_field "x" (get_float l.pos_x floats.zero attrs)
      ++ number_field "y" (get_float l.pos_y floats.zero attrs)
      ++ number_field "size_x" (get_float l.size_x floats.one attrs)
      ++ number_field "size_y" (get_float l.size_y floats.one attrs)
      ++ number_field "size_z" (get_float l.size_z floats.one attrs)
      ++ number_field "size" (get_float l.size floats.one attrs)
      ++ "\"val\":\""
      ++ env_json_escape (get_text l.val attrs)
      ++ "\"}"

  -- The loop over the agents, with commas between them.
  unfoldable pub agents_json : Links → Bool → Reported → String
  unfolding agent_json
  agents_json l first [] = ""
  agents_json l first ((k, attrs) ∷ m) =
      (if first then "" else ",") ++ (agent_json l attrs ++ agents_json l false m)

  unfoldable pub snaps_json : Bool → Map ℕ String → String
  snaps_json first [] = ""
  snaps_json first ((seq, ts) ∷ m) =
      (if first then "" else ",")
      ++ "{\"seq\":"
      ++ decimal seq
      ++ ",\"timestamp\":\""
      ++ env_json_escape ts
      ++ "\"}"
      ++ snaps_json false m

  -- `cmd.pop_back()` of a carriage return.
  unfoldable pub strip_return : String → String
  strip_return String.[] = String.[]
  strip_return (String.◌∷◌ c s) =
      let rest = strip_return s in
      if s == "" then (if code c == 13 then "" else String.◌∷◌ c "") else String.◌∷◌ c rest

  unfoldable pub agents_answer : ℕ → ℕ → Links → Reported → String
  unfolding agents_json
  agents_answer width height l m =
      "{\"width\":"
      ++ decimal width
      ++ ",\"height\":"
      ++ decimal height
      ++ ",\"agents\":["
      ++ agents_json l true m
      ++ "]}"

  unfoldable pub nsap_answer : Map ℕ String → String
  unfolding snaps_json
  nsap_answer index =
      "{\"count\":" ++ decimal (length index) ++ ",\"snaps\":[" ++ snaps_json true index ++ "]}"

  -- The answer to a line, for an environment of this width and height.
  unfoldable pub answer : ℕ → ℕ → Links → String → Environnement Reported → String
  unfolding agents_answer nsap_answer strip_return
  answer width height l line e =
      let cmd = strip_return line in
      (if cmd == "GET_AGENTS"
        then agents_answer width height l e.list_attr
        else if cmd == "GET_NSAP"
        then nsap_answer e.nsap_index
        else "{\"error\":\"unknown command\"}")
      ++ "\n"
