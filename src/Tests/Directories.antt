-- ===== src/Tests/Directories.antt =====
-- Concrete registries.
use g_agent.Base.{
  String, List, [], ◌∷◌, Bool, false, not, none, if◌then◌else◌, string_key, keep, unless, ◌≡◌, refl,
  ℤ, pos, int_ltb, int_key, lookup,
}
use g_agent.Platform.Input.{read_word, to_string}
use g_agent.Platform.Ams.{AgentRecord, Ams, find_agent, register_agent}
use g_agent.Platform.Ams.Refinement.{
  Call, registers, leaves, slave_leaves, finds, changes, run_ams, run_directory,
  run_ams-run_directory,
}
use g_agent.Platform.Ams.Server.{
  command_of, read_record, agent_line, Master, handle_client, is_dead, serve_lookup,
}
use g_agent.Platform.Ams.WellFormed.{IsWellFormed, handle_client-IsWellFormed}
use g_agent.Platform.Df as DfPart
use g_agent.Platform.Df.{
  Service, Df, register_service, search, search_ontology, find_services, answer_found,
}
use g_agent.Platform.Df.Directory.{handle_client-fits, fits, is_kept}
use g_agent.Platform.Watchdog.{Registries, sweep, late, sweep_lem}

abbrev agent : String → ℤ → String → AgentRecord
agent n pid slave = record {
  name = n;
  address = "-";
  pid = pid;
  state = "active";
  slave_ip = slave;
}

abbrev two_agents : Ams
two_agents = record {
  registry = ("alice", agent "alice" (pos 10) "") ∷ ("bob", agent "bob" (pos 20) "10.0.0.7") ∷ [];
}

two_agents-IsWellFormed : IsWellFormed two_agents
two_agents-IsWellFormed = (((refl, tt), (tt, tt)), (refl, (refl, tt)))

-- The processes above 15 run.
abbrev running : ℤ → Bool
running pid = int_ltb (pos 15) pid

abbrev calls : List Call
calls =
    registers (agent "bob" (pos 30) "")
    ∷ registers (agent "eve" (pos 30) "")
    ∷ changes "eve" "waiting"
    ∷ slave_leaves "10.0.0.7"
    ∷ finds "bob"
    ∷ leaves "eve"
    ∷ finds "eve"
    ∷ []

run_ams-run_directory_example :
    run_ams calls two_agents ≡ run_directory calls (λ k. find_agent k two_agents)
run_ams-run_directory_example = run_ams-run_directory calls two_agents two_agents-IsWellFormed.0

abbrev master : Master
master = record { ams = two_agents; slave_registry = none }

handle_client-IsWellFormed_example :
    IsWellFormed (handle_client running 5 "" "REGISTER eve 30 ipc:///tmp/acl_eve" master).1.ams
handle_client-IsWellFormed_example =
    handle_client-IsWellFormed running 5 "" "REGISTER eve 30 ipc:///tmp/acl_eve" master
      two_agents-IsWellFormed

-- The server at work: a registration, a refused one, and a look-up of an agent that died.
registered : (handle_client running 5 "" "REGISTER eve 30 ipc:///tmp/acl_eve" master).0 ≡ "OK\n"
unfolding handle_client command_of read_word register_agent lookup read_record
registered = refl

refused :
    (handle_client running 5 "" "REGISTER bob 30 ipc:///tmp/acl_bob" master).0
    ≡ "ERROR already_registered\n"
unfolding handle_client command_of read_word register_agent lookup read_record
refused = refl

found_bob : (handle_client running 5 "" "LOOKUP bob" master).0 ≡ "OK bob 20 - active 10.0.0.7\n"
unfolding handle_client command_of read_word serve_lookup find_agent lookup is_dead agent_line
    to_string
found_bob = refl

died : (handle_client running 5 "" "LOOKUP alice" master).0 ≡ "ERROR not_found\n"
unfolding handle_client command_of read_word serve_lookup find_agent lookup is_dead agent_line
    to_string
died = refl

abbrev service : String → String → String → ℤ → String → Service
service n type ontology pid slave = record {
  agent_name = n;
  type = type;
  name = "s";
  language = "fipa-sl";
  ontology = ontology;
  interaction_protocol = "";
  ownership = "";
  pid = pid;
  slave_ip = slave;
}

abbrev two_services : Df
two_services = record {
  services =
      service "alice" "planning" "travel" (pos 10) ""
      ∷ service "bob" "planning" "" (pos 20) "10.0.0.7"
      ∷ [];
}

handle_client-fits_example : DfPart.handle_client running "" "SEARCH planning" two_services ≡ (
  answer_found (keep (fits false "planning" "") (keep (is_kept running) two_services.services)),
  record { services = keep (is_kept running) two_services.services },
)
unfolding read_word
handle_client-fits_example = handle_client-fits running "" "SEARCH planning" false two_services refl

abbrev platform : Registries
platform = record {
  ams = two_agents;
  df = two_services;
  slave_registry = record {
    slaves = ("10.0.0.7", record { control_port = pos 40015; last_heartbeat = 0 }) ∷ [];
  };
}

sweep_lem_example :
    ((ip : String)
      → lookup ip (sweep 15 20_000_000_000 platform).slave_registry.slaves ≡ (
          if late 15 20_000_000_000 ip platform
          then none
          else lookup ip platform.slave_registry.slaves))
    × ((n : String)
        → find_agent n (sweep 15 20_000_000_000 platform).ams
          ≡ unless (λ g. late 15 20_000_000_000 g.slave_ip platform) (find_agent n two_agents))
    × ((sweep 15 20_000_000_000 platform).df.services
        ≡ keep (λ s. not (late 15 20_000_000_000 s.slave_ip platform)) two_services.services)
sweep_lem_example = sweep_lem 15 20_000_000_000 platform two_agents-IsWellFormed.0 (tt, tt)
