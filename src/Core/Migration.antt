-- ===== src/Core/Migration.antt =====
-- The migration of an agent: the message of `control_Thread` in src/core/Agent.cpp, and
-- `handle_migration` of src/core/AgentFactory.cpp, which reads it on the other machine. What the
-- registered creators make is a parameter.
pub mod Attributes
pub mod Journey
use Prim.Native.Char.{Char, code}
use Prim.Native.String.{◌++◌}
use g_agent.Base.{
  String, List, [], ◌∷◌, Bool, true, false, ◌||◌, not, Option, none, some, if◌then◌else◌, ◌==◌,
  nat_key, string_key,
}
use g_agent.Env.Attributs.{
  Attributs, attributs_text, add_attribut, set_attribut, pieces, split_pair,
}
use g_agent.Platform.Input.{Input, input, read_word}
use g_agent.Platform.Clients.{read_line}

-- The attributes in the message, with a dash for none.
unfoldable pub attributs_word : Attributs → String
attributs_word m = let s = attributs_text m in if s == "" then "-" else s

unfoldable pub arrive_line : String → String → Attributs → String
unfolding attributs_word
arrive_line type name m = "ARRIVE " ++ type ++ " " ++ name ++ " " ++ attributs_word m

-- `line.pop_back()` at a carriage return.
unfoldable pub strip_cr : String → String
strip_cr String.[] = String.[]
strip_cr (String.◌∷◌ c String.[]) = if code c == 13 then "" else String.◌∷◌ c ""
strip_cr (String.◌∷◌ c (String.◌∷◌ d s)) = String.◌∷◌ c (strip_cr (String.◌∷◌ d s))

-- One turn of the loop over the attributes: a piece without a colon is passed over.
unfoldable pub restore_pair : Option (String × String) → Attributs → Attributs
restore_pair none a = a
restore_pair (some (k, v)) a = set_attribut k v (add_attribut k a)

unfoldable pub restore_all : List String → Attributs → Attributs
restore_all [] a = a
restore_all (t ∷ ts) a = restore_all ts (restore_pair (split_pair t) a)

unfoldable pub restore : String → Attributs → Attributs
restore attrs a = let (t, ts) = pieces attrs in if attrs == "-" then a else restore_all (t ∷ ts) a

-- The reply to the agent's old place; an agent that is accepted starts here.
pub data Arrival : Type 0 where
  refused : String → Arrival
  arrived : String → String → Attributs → Arrival

-- The attributes that the new agent of a type has at first; nothing for an unknown type.
module _ (create : String → Option Attributs) where
  abbrev pub accept : String → String → String → Option Attributs → Arrival
  unfolding restore
  accept type name attrs none = refused ("ERR unknown type " ++ type ++ "\n")
  accept type name attrs (some a) = arrived type name (restore attrs a)

  unfoldable pub arrive : String → String → String → String → Arrival
  arrive cmd type name attrs =
      if not (cmd == "ARRIVE") || type == "" || name == ""
      then refused "ERR bad format\n"
      else accept type name attrs (create type)

  unfoldable pub handle_migration : String → Arrival
  unfolding arrive
  handle_migration text =
      let (cmd, i1) = read_word (input (strip_cr (read_line text).0)) "" in
      let (type, i2) = read_word i1 "" in
      let (name, i3) = read_word i2 "" in
      let (attrs, i4) = read_word i3 "" in arrive cmd type name attrs
