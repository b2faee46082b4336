-- ===== src/Platform/Clients/Df.antt =====
-- src/platform/DFClient.cpp: the client of the DF. `pid` is the result of `getpid`.
pub mod Session
pub mod Searching
pub mod Registering
use mathlib.Core.Option
use Prim.Native.String.{◌++◌}
use g_agent.Base.{
  ℕ, zero, suc, String, List, [], ◌∷◌, Bool, Option, if◌then◌else◌, ◌==◌, string_key, ℤ,
}
use g_agent.Platform.Input.{input, read_word, to_string}
use g_agent.Platform.Config.{Config, is_cluster, lines_of}
use g_agent.Platform.Clients.{
  Server, read_line, request, Outcome, answered, connected, read_counted,
}

pub record ServiceInfo : Type 0 where
  pub agent_name : String
  pub type : String
  pub service_name : String
  pub language : String
  pub ontology : String
  pub interaction_protocol : String
  pub ownership : String

unfoldable pub read_service_info : String → ServiceInfo
read_service_info line =
    let (agent_name, i1) = read_word (input line) "" in
    let (type, i2) = read_word i1 "" in
    let (service_name, i3) = read_word i2 "" in
    let (language, i4) = read_word i3 "" in
    let (ontology, i5) = read_word i4 "" in
    let (protocol, i6) = read_word i5 "" in
    let (ownership, i7) = read_word i6 "" in
    record {
      agent_name = agent_name;
      type = type;
      service_name = service_name;
      language = language;
      ontology = ontology;
      interaction_protocol = protocol;
      ownership = ownership;
    }

info_lines : List String → List ServiceInfo
unfolding read_service_info
info_lines [] = []
info_lines (l ∷ ls) =
    let rest = info_lines ls in if l == "" then rest else read_service_info l ∷ rest

unfoldable pub parse_results : String → List ServiceInfo
unfolding info_lines lines_of
parse_results response = info_lines (lines_of response)

-- The loop over the lines of an answer.
unfoldable pub read_service_infos : ℕ → String → List ServiceInfo
unfolding read_service_info read_line
read_service_infos zero text = []
read_service_infos (suc n) text =
    let (line, rest) = read_line text in read_service_info line ∷ read_service_infos n rest

abbrev or_dash : String → String
or_dash v = if v == "" then "-" else v

-- The slave's address in a cluster, and the dash without one.
unfoldable pub slave_text : Config → String
slave_text cfg = if is_cluster cfg then cfg.slave_ip else "-"

unfoldable pub service_text : Config → ℤ → ServiceInfo → String
service_text cfg pid s =
    s.agent_name
    ++ " "
    ++ to_string pid
    ++ " "
    ++ s.type
    ++ " "
    ++ s.service_name
    ++ " "
    ++ s.language
    ++ " "
    ++ or_dash s.ontology
    ++ " "
    ++ or_dash s.interaction_protocol
    ++ " "
    ++ or_dash s.ownership
    ++ " "
    ++ slave_text cfg

module _ {S : Type 0} (server : Server S) where
  -- The arguments of `registerService` are the fields of `s`.
  unfoldable pub register_service : Config → ℤ → ServiceInfo → S → Bool × S
  register_service cfg pid s st =
      answered (request server ("REGISTER " ++ service_text cfg pid s) st)

  unfoldable pub deregister_agent : String → S → Bool × S
  deregister_agent name s = answered (request server ("DEREGISTER " ++ name) s)

  unfoldable pub search_impl : String → S → Outcome (List ServiceInfo) × S
  search_impl cmd s = connected (read_counted read_service_infos) (server (cmd ++ "\n") s) s

  unfoldable pub search : String → S → Outcome (List ServiceInfo) × S
  unfolding search_impl
  search type s = search_impl ("SEARCH " ++ type) s

  unfoldable pub search_ontology : String → String → S → Outcome (List ServiceInfo) × S
  unfolding search_impl
  search_ontology type ontology s = search_impl ("SEARCH_ONT " ++ (type ++ (" " ++ ontology))) s
