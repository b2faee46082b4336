-- ===== src/Platform/Config.antt =====
-- src/platform/PlatformConfig.cpp: the configuration a program reads, and `write_config` of
-- platform/main.cpp, by which the platform writes it.
pub mod RoundTrip
use mathlib.Core.Option
use Prim.Native.Char.{Char, code}
use Prim.Native.String.{◌++◌}
use g_agent.Base.{
  String, Bool, true, false, Option, none, some, if◌then◌else◌, ◌==◌, nat_key, string_key, not,
  ◌||◌, List, [], ◌∷◌, ℤ, pos,
}
use g_agent.Platform.Input.{Input, input, read_int, to_string}

pub record Config : Type 0 where
  pub master_ip : String
  pub master_port : ℤ
  pub slave_ip : String
  pub control_port : ℤ
  pub base_port : ℤ
  pub socket_timeout : ℤ

abbrev pub default_config : Config
default_config = record {
  master_ip = "";
  master_port = pos 40011;
  slave_ip = "";
  control_port = pos 40015;
  base_port = pos 50000;
  socket_timeout = pos 5;
}

unfoldable pub is_cluster : Config → Bool
is_cluster c = not (c.slave_ip == "")

-- `std::stoi`: nothing where it throws.
unfoldable pub stoi : String → Option ℤ
stoi s = let (n, i) = read_int (input s) (pos 0) in if i.good then some n else none

-- The key and the value of a line, at its first `=`.
unfoldable pub split_line : String → Option (String × String)
split_line String.[] = none
split_line (String.◌∷◌ c s) =
    let later = split_line s in
    if code c == 61 then some ("", s) else Option.map (λ p. (String.◌∷◌ c p.0, p.1)) later

-- The chain of tests on the key.
unfoldable pub set_key : String → String → Config → Option Config
set_key key value c =
    if key == "master_ip"
    then some (record c { master_ip = value })
    else if key == "master_port"
    then Option.map (λ n. record c { master_port = n }) (stoi value)
    else if key == "slave_ip"
    then some (record c { slave_ip = value })
    else if key == "control_port"
    then Option.map (λ n. record c { control_port = n }) (stoi value)
    else if key == "base_port"
    then Option.map (λ n. record c { base_port = n }) (stoi value)
    else if key == "socket_timeout"
    then Option.map (λ n. record c { socket_timeout = n }) (stoi value)
    else some c

abbrev pub set_pair : Option (String × String) → Config → Option Config
set_pair none c = some c
set_pair (some (key, value)) c = set_key key value c

-- One turn of the loop: an empty line or a comment is passed over, and so is a line without `=`.
unfoldable pub load_line : String → Config → Option Config
load_line String.[] c = some c
load_line (String.◌∷◌ d s) c =
    if code d == 35 then some c else set_pair (split_line (String.◌∷◌ d s)) c

abbrev pub push_char : Char → List String → List String
push_char c [] = String.◌∷◌ c "" ∷ []
push_char c (l ∷ ls) = String.◌∷◌ c l ∷ ls

-- The texts that `std::getline` reads one by one.
unfoldable pub lines_of : String → List String
lines_of String.[] = []
lines_of (String.◌∷◌ c s) =
    let rest = lines_of s in if code c == 10 then "" ∷ rest else push_char c rest

unfoldable pub load_lines : List String → Config → Option Config
load_lines [] c = some c
load_lines (l ∷ ls) c = Option.bind (load_line l c) (load_lines ls)

-- `PlatformConfig::load`, of the text of the file; nothing where `stoi` throws.
unfoldable pub load : String → Config → Option Config
unfolding load_lines
load text c = load_lines (lines_of text) c

-- `write_config`, up to its message. The timeout is not written.
unfoldable pub write_text : String → String → String → String
write_text key value rest = if value == "" then rest else key ++ (value ++ ("\n" ++ rest))

unfoldable pub write_config : Config → String
write_config c = write_text "master_ip=" c.master_ip (
    "master_port="
    ++ (to_string c.master_port
        ++ ("\n"
            ++ write_text "slave_ip=" c.slave_ip (
                "control_port="
                ++ (to_string c.control_port
                    ++ ("\n" ++ ("base_port=" ++ (to_string c.base_port ++ "\n"))))))))
