-- ===== src/Platform/Df.antt =====
-- platform/df/DF.cpp: the directory of the services. The mutex makes each operation one step.
-- `alive` is the operating system's: false where `kill(pid, 0)` fails with ESRCH.
pub mod Directory
use Prim.Native.String.{◌++◌ as append}
use g_agent.Base.{
  String, List, [], ◌∷◌, ◌++◌, Bool, true, false, ◌&&◌, ◌||◌, not, Option, none, some,
  if◌then◌else◌, ◌==◌, string_key, keep, length, ℤ, pos, int_ltb,
}
use g_agent.Platform.Input.{Input, input, read_word, read_int, decimal}

pub record Service : Type 0 where
  pub agent_name : String
  pub type : String
  pub name : String
  pub language : String
  pub ontology : String
  pub interaction_protocol : String
  pub ownership : String
  pub pid : ℤ
  pub slave_ip : String

pub record Df : Type 0 where
  pub services : List Service

unfoldable pub register_service : Service → Df → Df
register_service s d = record { services = d.services ++ s ∷ [] }

unfoldable pub deregister_agent : String → Df → Df
deregister_agent n d = record { services = keep (λ s. not (s.agent_name == n)) d.services }

unfoldable pub deregister_slave : String → Df → Df
deregister_slave ip d = record { services = keep (λ s. not (s.slave_ip == ip)) d.services }

unfoldable pub search : String → Df → List Service
search t d = keep (λ s. s.type == t) d.services

unfoldable pub search_ontology : String → String → Df → List Service
search_ontology t o d = keep (λ s. s.type == t && s.ontology == o) d.services

abbrev pub tok : String → String
tok v = if v == "" then "-" else v

unfoldable pub svc_to_line : Service → String
svc_to_line s = append (tok s.agent_name) (
    append " " (
      append (tok s.type) (
        append " " (
          append (tok s.name) (
            append " " (
              append (tok s.language) (
                append " " (
                  append (tok s.ontology) (
                    append " " (
                      append (tok s.interaction_protocol)
                        (append " " (append (tok s.ownership) "\n"))))))))))))

unfoldable pub service_lines : List Service → String
service_lines [] = ""
service_lines (s ∷ ss) = append (svc_to_line s) (service_lines ss)

-- "-" stands for the empty text.
abbrev pub undash : String → String
undash v = if v == "-" then "" else v

-- What follows REGISTER.
unfoldable pub read_service : String → Input → Service
read_service peer_ip i =
    let (agent_name, i1) = read_word i "" in
    let (pid, i2) = read_int i1 (pos 0) in
    let (type, i3) = read_word i2 "" in
    let (name, i4) = read_word i3 "" in
    let (language, i5) = read_word i4 "" in
    let (ontology, i6) = read_word i5 "" in
    let (protocol, i7) = read_word i6 "" in
    let (ownership, i8) = read_word i7 "" in
    let (given, i9) = read_word i8 "" in
    record {
      agent_name = agent_name;
      type = type;
      name = name;
      language = language;
      ontology = undash ontology;
      interaction_protocol = undash protocol;
      ownership = undash ownership;
      pid = pid;
      slave_ip = undash (if given == "" && not (peer_ip == "") then peer_ip else given);
    }

unfoldable pub answer_found : List Service → String
unfolding service_lines
answer_found ss = append "OK " (append (decimal (length ss)) (append "\n" (service_lines ss)))

module _ (alive : ℤ → Bool) where
  -- A local service with a process id whose process is gone.
  unfoldable pub is_dead : Service → Bool
  is_dead s = s.slave_ip == "" && int_ltb (pos 0) s.pid && not (alive s.pid)

  unfoldable pub purge_dead : Df → Df
  purge_dead d = record { services = keep (λ s. not (is_dead s)) d.services }

  -- The services that SEARCH or SEARCH_ONT finds.
  unfoldable pub find_services : Bool → Input → Df → List Service
  find_services with_ontology i d =
      let (type, i1) = read_word i "" in
      if with_ontology
      then search_ontology type (read_word i1 "").0 d
      else if type == "" || type == "*"
      then d.services
      else search type d

  unfoldable pub serve_search : Bool → Input → Df → String × Df
  serve_search with_ontology i d =
      let d1 = purge_dead d in (answer_found (find_services with_ontology i d1), d1)

  unfoldable pub handle_client : String → String → Df → String × Df
  unfolding serve_search
  handle_client peer_ip line d =
      let (cmd, i) = read_word (input line) "" in
      if cmd == "REGISTER"
      then ("OK\n", register_service (read_service peer_ip i) d)
      else if cmd == "DEREGISTER"
      then ("OK\n", deregister_agent (read_word i "").0 d)
      else if cmd == "SEARCH" || cmd == "SEARCH_ONT"
      then serve_search (cmd == "SEARCH_ONT") i d
      else ("ERROR unknown_command\n", d)
