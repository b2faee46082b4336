-- ===== src/Tests/Clients.antt =====
-- Runs of the clients on the servers, and of the configuration file.
use g_agent.Base.{
  [], ◌∷◌, Bool, true, Option, none, some, map, ◌++◌, lookup, erase_if, ◌≡◌, refl, ℤ, pos,
}
use g_agent.Platform.Ams.{AgentRecord}
use g_agent.Platform.Ams.Server.{Master, purge_dead, is_dead}
use g_agent.Platform.Df as DfPart
use g_agent.Platform.Df.{Service, Df}
use g_agent.Platform.Config.{Config, default_config}
use g_agent.Platform.Clients.{Outcome, returns}
use g_agent.Platform.Clients.Ams.{AgentInfo, register_agent, lookup_agent, list}
use g_agent.Platform.Clients.Ams.Session.{serve, Readable, info_of}
use g_agent.Platform.Clients.Ams.Remote.{lookup_agent-register_agent}
use g_agent.Platform.Clients.Ams.Listing.{infos_of, list-purge_dead}
use g_agent.Platform.Clients.Df.{ServiceInfo, register_service, search}
use g_agent.Platform.Clients.Df.Session.{Sendable, given_service, register_service-remote}
use g_agent.Platform.Clients.Df.Session as DfSession
use g_agent.Platform.Clients.Df.Searching as Searching
use g_agent.Platform.Clients.Df.Searching.{of_type}
use g_agent.Platform.Clients.Df.Registering.{search-register_service}

abbrev slave_config : Config
slave_config = record default_config { master_ip = "10.0.0.1"; slave_ip = "10.0.0.2" }

abbrev alice : AgentRecord
alice = record {
  name = "alice";
  address = "ipc:alice";
  pid = pos 4321;
  state = "active";
  slave_ip = "10.0.0.2";
}

alice-Readable : Readable alice
alice-Readable = record {
  name_ok = refl;
  pid_ok = refl;
  address_ok = refl;
  state_ok = refl;
  slave_ok = refl;
}

abbrev one_agent : Master
one_agent = record { ams = record { registry = ("alice", alice) ∷ [] }; slave_registry = none }

abbrev no_agent : Master
no_agent = record { ams = record { registry = [] }; slave_registry = none }

abbrev all_alive : ℤ → Bool
all_alive z = true

lookup_agent-register_agent_example :
    let server = serve all_alive 7 "" in
    let (ok, after) = register_agent server slave_config "alice" (pos 4321) "ipc:alice" no_agent in
    (ok ≡ true)
    × (◌≡◌ {A = Outcome (Option AgentInfo) × Master}
        (lookup_agent server "alice" after)
        (returns (some (info_of alice)), after))
unfolding lookup
lookup_agent-register_agent_example =
    lookup_agent-register_agent all_alive 7 "" slave_config "alice" (pos 4321) "ipc:alice" no_agent
      alice-Readable refl refl (unfold is_dead in refl)

list-purge_dead_example : list (serve all_alive 7 "") one_agent ≡ (
  returns (infos_of (purge_dead all_alive one_agent.ams).registry),
  record one_agent { ams = purge_dead all_alive one_agent.ams },
)
unfolding purge_dead is_dead erase_if
list-purge_dead_example = list-purge_dead all_alive 7 "" one_agent (alice-Readable, tt) refl

abbrev planning : ServiceInfo
planning = record {
  agent_name = "alice";
  type = "planner";
  service_name = "trips";
  language = "sl";
  ontology = "";
  interaction_protocol = "fipa-request";
  ownership = "";
}

planning-Sendable : Sendable planning
planning-Sendable = record {
  agent_name_ok = refl;
  type_ok = refl;
  service_name_ok = refl;
  language_ok = refl;
  ontology_ok = refl;
  interaction_protocol_ok = refl;
  ownership_ok = refl;
}

abbrev empty_df : Df
empty_df = record { services = [] }

abbrev one_service : Df
one_service = record { services = given_service default_config (pos 4321) planning ∷ [] }

planning-Listable : Searching.Listable (given_service default_config (pos 4321) planning)
planning-Listable = record {
  agent_name_ok = refl;
  type_ok = refl;
  name_ok = refl;
  language_ok = refl;
  ontology_ok = refl;
  interaction_protocol_ok = refl;
  ownership_ok = refl;
}

search-register_service_example :
    let (ok, after) =
      register_service
        (DfSession.serve all_alive "")
        default_config
        (pos 4321)
        planning
        one_service in
    (ok ≡ true)
    × ((search (DfSession.serve all_alive "") "planner" after).0
        ≡ returns (
            map Searching.info_of (of_type "planner" (DfPart.purge_dead all_alive one_service))
            ++ Searching.info_of (given_service default_config (pos 4321) planning) ∷ []))
unfolding DfPart.purge_dead DfPart.is_dead DfPart.search
search-register_service_example =
    search-register_service all_alive "" default_config (pos 4321) planning one_service
      planning-Sendable refl refl planning-Listable refl (planning-Listable, tt) refl
