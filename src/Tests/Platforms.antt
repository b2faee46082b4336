-- ===== src/Tests/Platforms.antt =====
-- Runs of a platform of several machines: the manager, the control server, a slave and its master.
use mathlib.Core.Option
use g_agent.Base.{
  to_u16, ℕ, String, List, [], ◌∷◌, Bool, true, false, Option, none, some, if◌then◌else◌, ◌==◌,
  string_key, int_key, ==_refl, leb, length, lookup, contains, is_some, ◌≡◌, refl, ap, subst, ◌&&◌,
  nat_key, ℤ, pos,
}
use g_agent.Core.Lifecycle.{unknown, sig_delete, Signal, at_loop, Process, signal_handler}
use g_agent.Platform.Slaves.{SlaveInfo, SlaveRegistry, register_slave, slave_list}
use g_agent.Platform.Ams.{AgentRecord, deregister_slave, find_agent}
use g_agent.Platform.Ams.Server.{Master, on_slaves}
use g_agent.Platform.Df.{Service}
use g_agent.Platform.Watchdog.{Registries}
use g_agent.Platform.Config.{Config, default_config, stoi, load, write_config}
use g_agent.Platform.Clients.{Outcome, returns}
use g_agent.Platform.Clients.Ams.Session.{Readable}
use g_agent.Platform.Clients.Ams.Lookup.{Findable, find_live}
use g_agent.Platform.Clients.Ams.Slaves.{AllSlaves, slaves_of}
use g_agent.Platform.Input.{read_int}
use g_agent.Platform.Manager.{Sending, sent, send_signal, cmd_suspend, cmd_wake}
use g_agent.Platform.Manager.Delivery.{
  Platform, port_in, ams, control_at, queue_here, delivered, send_signal-delivered,
}
use g_agent.Platform.Manager.Gates.{Delivers, settled, gate_after, cmd_suspend-cmd_wake}
use g_agent.Platform.Startup.{Args, on_slave, split_last, platform_config, start_slave, stop_slave}
use g_agent.Platform.Startup.Session.{master_at, start_slave-register_slave}
use g_agent.Platform.Startup.Beats.{
  Event, beats, sweeps, run_events, services_of, AreDistinct, run_events-is_timely,
}
use g_agent.Platform.Startup.Stop.{ams_part, stopped, stop_slave-services_of}

-- An agent on the slave 10.0.0.2, whose control server listens at port 40016.
abbrev carol : AgentRecord
carol = record {
  name = "carol";
  address = "tcp://10.0.0.2:50001";
  pid = pos 77;
  state = "active";
  slave_ip = "10.0.0.2";
}

carol-Readable : Readable carol
carol-Readable = record {
  name_ok = refl;
  pid_ok = refl;
  address_ok = refl;
  state_ok = refl;
  slave_ok = refl;
}

abbrev slave_info : SlaveInfo
slave_info = record { control_port = pos 40016; last_heartbeat = 1_000_000_000 }

abbrev some_slaves : SlaveRegistry
some_slaves = record { slaves = ("10.0.0.2", slave_info) ∷ [] }

abbrev cluster : Master
cluster = record {
  ams = record { registry = ("carol", carol) ∷ [] };
  slave_registry = some some_slaves;
}

carol_registered : find_agent "carol" cluster.ams ≡ some carol
unfolding find_agent lookup
carol_registered = refl

carol-Findable : Findable "carol" cluster
unfolding find_agent lookup
carol-Findable = record {
  named = λ r e. by_carol (λ r. r.name ≡ "carol") r refl e;
  readable = λ r e. by_carol Readable r carol-Readable e;
}
  where
    by_carol : (P : AgentRecord → Type 0) (r : AgentRecord) → P carol → some carol ≡ some r → P r
    by_carol P r h e = subst P (ap (λ o. elim o [ none ↦ carol | some a ↦ a ]) e) h

cluster-AllSlaves : AllSlaves (slaves_of cluster.slave_registry)
unfolding slave_list
cluster-AllSlaves = ((refl, refl), tt)

cluster_count : leb (length (slaves_of cluster.slave_registry)) 2147483647 ≡ true
unfolding slave_list
cluster_count = refl

abbrev carol_process : Process
carol_process = record {
  child = pos 77;
  agent_name = "carol";
  agent_id = "0123456789";
  agent_type = "";
  attributs = [];
  action_to_do = unknown;
  running = true;
  control = at_loop;
  effects = [];
}

-- The processes of a machine, by their pids; a signal runs the handler of its process.
abbrev Processes : Type 0
Processes = ℤ → Option Process

abbrev queue_signal : ℤ → Signal → Processes → Bool × Processes
queue_signal pid s k =
    (is_some (k pid), λ q. if q == pid then Option.map (signal_handler s) (k q) else k q)

abbrev process_of : ℤ → Processes → Option Process
process_of pid k = k pid

queue_signal-Delivers : Delivers queue_signal process_of
queue_signal-Delivers = record { handled = λ pid s k. rw (==_refl pid) refl }

abbrev two_machines : Platform Processes
two_machines = record {
  master = cluster;
  here = λ q. none;
  away = λ q. if q == pos 77 then some carol_process else none;
}

abbrev slave_only : String → ℕ → Bool
slave_only ip port = ip == "10.0.0.2" && port == 40016

abbrev all_alive : ℤ → Bool
all_alive z = true

send_signal-delivered_example :
    send_signal
      (ams queue_signal slave_only all_alive 7 "")
      (ams queue_signal slave_only all_alive 7 "")
      (control_at queue_signal slave_only)
      (queue_here queue_signal)
      "carol"
      sig_delete
      two_machines
    ≡ delivered queue_signal slave_only all_alive 7 "" sig_delete
        (find_live all_alive "carol" cluster)
        two_machines
send_signal-delivered_example =
    send_signal-delivered queue_signal slave_only all_alive 7 "" "carol" sig_delete two_machines
      refl refl carol-Findable cluster-AllSlaves cluster_count

abbrev no_migration : String → Option String
no_migration text = none

cmd_suspend-cmd_wake_example :
    (◌≡◌ {A = Outcome Sending × Option AgentRecord × Option Process}
      (gate_after queue_signal process_of slave_only all_alive 7 "" no_migration "carol" (pos 77) (
        cmd_suspend
          (ams queue_signal slave_only all_alive 7 "")
          (ams queue_signal slave_only all_alive 7 "")
          (control_at queue_signal slave_only)
          (queue_here queue_signal)
          "carol"
          two_machines))
      (
        returns sent,
        some (record carol { state = "suspended" }),
        some (settled false carol_process),
      ))
    × (◌≡◌ {A = Outcome Sending × Option AgentRecord × Option Process}
        (gate_after queue_signal process_of slave_only all_alive 7 "" no_migration "carol"
          (pos 77)
          (cmd_wake
            (ams queue_signal slave_only all_alive 7 "")
            (ams queue_signal slave_only all_alive 7 "")
            (control_at queue_signal slave_only)
            (queue_here queue_signal)
            "carol"
            two_machines))
        (returns sent, some (record carol { state = "active" }), some (settled true carol_process)))
cmd_suspend-cmd_wake_example =
    cmd_suspend-cmd_wake queue_signal process_of slave_only all_alive 7 "" no_migration "carol"
      two_machines carol carol_process queue_signal-Delivers refl carol-Findable cluster-AllSlaves
      cluster_count carol_registered refl carol_reached refl refl
  where
    carol_reached : slave_only "10.0.0.2" (to_u16 (port_in "10.0.0.2" (some some_slaves))) ≡ true
    carol_reached = unfold lookup in refl

abbrev slave_args : Args
slave_args = record {
  master = false;
  slave_addr = "10.0.0.1:40011";
  local_ip = "";
  port_plt = "40011";
  control_port = pos 40016;
  base_port = pos 50000;
}

abbrev master_only : String → ℕ → Bool
master_only ip port = ip == "10.0.0.1" && port == 40011

start_slave-register_slave_example :
    let cfg = platform_config slave_args "10.0.0.1" (pos 40011) "10.0.0.2" in
    (start_slave (master_at all_alive 7 "10.0.0.2" master_only) "127.0.0.1" slave_args cluster ≡ (
      on_slave cfg,
      on_slaves
          (register_slave 7 "10.0.0.2" (pos 40016))
          (record cluster { ams = deregister_slave "10.0.0.2" cluster.ams }),
    ))
    × (load (write_config cfg) default_config ≡ some cfg)
start_slave-register_slave_example =
    start_slave-register_slave all_alive 7 "10.0.0.2" master_only "127.0.0.1" slave_args "10.0.0.1"
      "40011" (pos 40011) cluster (unfold split_last in refl) (unfold stoi read_int in refl) refl
      refl refl refl refl refl refl

abbrev planning : Service
planning = record {
  agent_name = "carol";
  type = "planner";
  name = "trips";
  language = "";
  ontology = "";
  interaction_protocol = "";
  ownership = "";
  pid = pos 77;
  slave_ip = "10.0.0.2";
}

abbrev registries : Registries
registries = record {
  ams = cluster.ams;
  df = record { services = planning ∷ [] };
  slave_registry = some_slaves;
}

registries-AreDistinct : AreDistinct registries
registries-AreDistinct = record { names = (tt, tt); slaves = (tt, tt) }

-- A round in time, a beat, another slave's beat, and a later round.
abbrev timeline : List (ℕ × Event)
timeline =
    (5_000_000_000, sweeps)
    ∷ (6_000_000_000, beats "10.0.0.2")
    ∷ (7_000_000_000, beats "10.0.0.3")
    ∷ (20_000_000_000, sweeps)
    ∷ []

run_events-is_timely_example :
    let after = run_events 15 timeline registries in
    (contains "10.0.0.2" after.slave_registry.slaves ≡ true)
    × ((n : String) (g : AgentRecord)
        → find_agent n registries.ams ≡ some g
        → g.slave_ip ≡ "10.0.0.2"
        → find_agent n after.ams ≡ some g)
    × (services_of "10.0.0.2" after ≡ services_of "10.0.0.2" registries)
run_events-is_timely_example =
    run_events-is_timely 15 "10.0.0.2" slave_info timeline registries registries-AreDistinct
      (unfold lookup in refl) refl

abbrev carol_config : Config
carol_config = record default_config { master_ip = "10.0.0.1"; slave_ip = "10.0.0.2" }

stop_slave-services_of_example :
    let after = stopped "10.0.0.2" registries in
    (stop_slave (master_at all_alive 7 "10.0.0.2" master_only) carol_config (ams_part registries)
      ≡ ams_part after)
    × ((n : String) (g : AgentRecord)
        → find_agent n after.ams ≡ some g
        → (g.slave_ip == "10.0.0.2") ≡ false)
    × (lookup "10.0.0.2" after.slave_registry.slaves ≡ none)
    × (services_of "10.0.0.2" (run_events 15 timeline after) ≡ services_of "10.0.0.2" registries)
stop_slave-services_of_example =
    stop_slave-services_of all_alive 7 "10.0.0.2" master_only carol_config 15 timeline registries
      registries-AreDistinct refl refl
