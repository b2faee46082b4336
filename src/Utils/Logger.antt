-- ===== src/Utils/Logger.antt =====
-- include/gagent/utils/Logger.hpp: the log of a process. What is written to the standard output, to the
-- log file and to the file of JSON lines are texts of the state; the mutex makes each call one step.
-- The texts of the time are parameters.
pub mod Lines
use Prim.Native.Char.{Char, code}
use Prim.Native.String.{◌++◌}
use g_agent.Base.{
  ℕ, ◌/◌, ◌%◌, String, List, [], ◌∷◌, Bool, true, false, not, Option, none, some, if◌then◌else◌,
  ltb, ◌==◌, nat_key, string_key,
}

pub data LogLevel : Type 0 where
  debug info warning error critical : LogLevel

-- The order of the enumeration.
abbrev rank : LogLevel → ℕ
rank debug = 0
rank info = 1
rank warning = 2
rank error = 3
rank critical = 4

abbrev level_to_string : LogLevel → String
level_to_string debug = "DEBUG"
level_to_string info = "INFO "
level_to_string warning = "WARN "
level_to_string error = "ERROR"
level_to_string critical = "CRIT "

-- A file is open or not, with the text that it has got.
pub record Logger : Type 0 where
  pub min_level : LogLevel
  pub printed : String
  pub log_file : Option String
  pub json_file : Option String

-- The constructor: `opened` is what GAGENT_LOG opens, if it is set and can be opened.
abbrev pub new_logger : Option String → Logger
new_logger opened = record { min_level = info; printed = ""; log_file = none; json_file = opened }

abbrev set_log_level : LogLevel → Logger → Logger
set_log_level level l = record l { min_level = level }

abbrev pub append_to : Option String → String → Option String
append_to none text = none
append_to (some old) text = some (old ++ text)

-- The line of a message.
unfoldable log_text : String → LogLevel → String → String → String
log_text now level message source =
    now
    ++ " "
    ++ "["
    ++ level_to_string level
    ++ "] "
    ++ (if not (source == "") then "[" ++ source ++ "] " else "")
    ++ message
    ++ "\n"

unfoldable log : String → LogLevel → String → String → Logger → Logger
unfolding log_text
log now level message source l =
    let text = log_text now level message source in
    if ltb (rank level) (rank l.min_level)
    then l
    else record l { printed = l.printed ++ text; log_file = append_to l.log_file text }

-- `%x` of a number below 16.
unfoldable pub hex_digit : ℕ → String
hex_digit n =
    if n == 0
    then "0"
    else if n == 1
    then "1"
    else if n == 2
    then "2"
    else if n == 3
    then "3"
    else if n == 4
    then "4"
    else if n == 5
    then "5"
    else if n == 6
    then "6"
    else if n == 7
    then "7"
    else if n == 8
    then "8"
    else if n == 9
    then "9"
    else if n == 10
    then "a"
    else if n == 11
    then "b"
    else if n == 12
    then "c"
    else if n == 13
    then "d"
    else if n == 14
    then "e"
    else "f"

abbrev pub quote : Char
quote = "\""

abbrev pub backslash : Char
backslash = "\\"

abbrev pub letter_n : Char
letter_n = "n"

abbrev pub letter_r : Char
letter_r = "r"

abbrev pub letter_t : Char
letter_t = "t"

-- One turn of the loop, in front of the later ones.
unfoldable pub escape_char : Char → String → String
unfolding hex_digit
escape_char c rest =
    if code c == 34
    then String.◌∷◌ backslash (String.◌∷◌ quote rest)
    else if code c == 92
    then String.◌∷◌ backslash (String.◌∷◌ backslash rest)
    else if code c == 10
    then String.◌∷◌ backslash (String.◌∷◌ letter_n rest)
    else if code c == 13
    then String.◌∷◌ backslash (String.◌∷◌ letter_r rest)
    else if code c == 9
    then String.◌∷◌ backslash (String.◌∷◌ letter_t rest)
    else if ltb (code c) 32
    then "\\u00" ++ (hex_digit (code c / 16) ++ (hex_digit (code c % 16) ++ rest))
    else String.◌∷◌ c rest

unfoldable pub json_escape : String → String
unfolding escape_char
json_escape String.[] = String.[]
json_escape (String.◌∷◌ c s) = escape_char c (json_escape s)

unfoldable pub json_fields : List (String × String) → String
unfolding json_escape
json_fields [] = ""
json_fields ((k, v) ∷ l) = ",\"" ++ (k ++ ("\":\"" ++ (json_escape v ++ ("\"" ++ json_fields l))))

-- The object of an event, without the end of its line.
unfoldable pub json_event : String → String → List (String × String) → String
unfolding json_fields json_escape
json_event now event fields =
    "{\"ts\":\""
    ++ (now ++ ("\",\"event\":\"" ++ (json_escape event ++ ("\"" ++ (json_fields fields ++ "}")))))

unfoldable pub log_json : String → String → List (String × String) → Logger → Logger
unfolding json_event
log_json now event fields l = record l {
  json_file = append_to l.json_file (json_event now event fields ++ "\n");
}

-- The JSON lines stay enabled, and a file that is closed gets none.
abbrev close : Logger → Logger
close l = record l { log_file = none; json_file = none }
