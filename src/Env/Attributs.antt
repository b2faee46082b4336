-- ===== src/Env/Attributs.antt =====
-- The attributes of an agent: `addAttribut`, `removeAttribut`, `setAttribut`, `getAttribut` and the
-- message of `attributUpdated` in src/core/Agent.cpp, and `parseKeyValSeq` of src/env/Environnement.cpp,
-- by which the environment reads that message. The message queue between them is not modelled.
pub mod RoundTrip
use Prim.Native.Char.{Char, code}
use Prim.Native.String.{◌++◌}
use g_agent.Base.{
  String, List, [], ◌∷◌, Bool, true, false, Option, none, some, if◌then◌else◌, ◌==◌, nat_key,
  string_key, Map, lookup, insert, erase, contains, or_else,
}

abbrev pub Attributs : Type 0
Attributs = Map String String

-- `std::map::insert` keeps an entry that is there.
unfoldable pub add_attribut : String → Attributs → Attributs
add_attribut k m = if contains k m then m else insert k "" m

unfoldable pub remove_attribut : String → Attributs → Attributs
remove_attribut k m = erase k m

unfoldable pub set_attribut : String → String → Attributs → Attributs
set_attribut k v m = if contains k m then insert k v m else m

unfoldable pub get_attribut : String → Attributs → String
get_attribut k m = or_else (lookup k m) ""

-- The message: `key:value;` for each attribute.
unfoldable pub attributs_text : Attributs → String
attributs_text [] = ""
attributs_text ((k, v) ∷ m) = k ++ ":" ++ v ++ ";" ++ attributs_text m

abbrev pub semicolon : Char
semicolon = ";"

abbrev pub colon : Char
colon = ":"

-- The pieces between semicolons, the first apart. `getline` gives no empty last piece; the loop passes
-- over it like over every piece without a colon.
unfoldable pub pieces : String → String × List String
pieces String.[] = (String.[], [])
pieces (String.◌∷◌ c s) =
    let (t, ts) = pieces s in
    if code c == code semicolon then (String.[], t ∷ ts) else (String.◌∷◌ c t, ts)

abbrev pub before_it : Char → Option (String × String) → Option (String × String)
before_it c none = none
before_it c (some (k, v)) = some (String.◌∷◌ c k, v)

-- What stands before and behind the first colon.
unfoldable pub split_pair : String → Option (String × String)
split_pair String.[] = none
split_pair (String.◌∷◌ c s) =
    let later = split_pair s in
    if code c == code colon then some (String.[], s) else before_it c later

abbrev pub store : Option (String × String) → Attributs → Attributs
store none m = m
store (some (k, v)) m = insert k v m

unfoldable pub store_all : List String → Attributs → Attributs
store_all [] m = m
store_all (t ∷ ts) m = store_all ts (store (split_pair t) m)

-- The map that `parseKeyValSeq` leaves; it returns whether the map has an entry.
unfoldable pub parse_key_val_seq : String → Attributs
unfolding pieces split_pair store_all
parse_key_val_seq s = let (t, ts) = pieces s in store_all (t ∷ ts) []
