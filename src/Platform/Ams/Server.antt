-- ===== src/Platform/Ams/Server.antt =====
-- `AMS::handle_client` of platform/ams/AMS.cpp: one command line, its answer and the registries after
-- it. A handler is one step here; the source takes its lock for each call. `alive` is the operating
-- system's: false where `kill(pid, 0)` fails with ESRCH. `now` is the steady clock's reading.
use Prim.Native.String.{◌++◌}
use g_agent.Base.{
  ℕ, String, List, [], ◌∷◌, Bool, true, false, ◌&&◌, not, Option, none, some, if◌then◌else◌, ◌==◌,
  string_key, Map, erase_if, length, ℤ, pos, negsuc,
}
use g_agent.Platform.Input.{Input, input, read_word, read_int, decimal, to_string}
use g_agent.Platform.Slaves.{SlaveRegistry, register_slave, heartbeat, drop_slave, slave_list}
use g_agent.Platform.Ams.{
  AgentRecord, Ams, register_agent, register_endpoint, deregister_agent, deregister_slave,
  find_agent, set_state,
}

-- The AMS with its pointer to the registry of slaves, which may be null.
pub record Master : Type 0 where
  pub ams : Ams
  pub slave_registry : Option SlaveRegistry

abbrev pub on_slaves : (SlaveRegistry → SlaveRegistry) → Master → Master
on_slaves f m = record m {
  slave_registry = elim m.slave_registry [ none ↦ none | some r ↦ some (f r) ];
}

abbrev pub reply_if : String → Bool × Ams → Master → String × Master
reply_if error (true, a) m = ("OK\n", record m { ams = a })
reply_if error (false, a) m = (error, record m { ams = a })

-- What follows REGISTER and REGISTER_ENDPOINT: the name, the pid, the address and the slave.
unfoldable pub read_record : String → Input → AgentRecord
read_record peer_ip i =
    let (name, i1) = read_word i "" in
    let (pid, i2) = read_int i1 (negsuc 0) in
    let (address, i3) = read_word i2 "" in
    let (given, i4) = read_word i3 "" in
    record {
      name = name;
      address = address;
      pid = pid;
      state = "active";
      slave_ip = if given == "" && not (peer_ip == "") then peer_ip else given;
    }

abbrev pub dash : String → String
dash s = if s == "" then "-" else s

-- `name pid address state slave` and the end of the line.
unfoldable pub agent_line : AgentRecord → String
agent_line r =
    r.name
    ++ " "
    ++ to_string r.pid
    ++ " "
    ++ r.address
    ++ " "
    ++ r.state
    ++ " "
    ++ dash r.slave_ip
    ++ "\n"

unfoldable pub agent_lines : Map String AgentRecord → String
agent_lines [] = ""
agent_lines ((n, r) ∷ m) = agent_line r ++ agent_lines m

unfoldable pub slave_lines : List (String × ℤ) → String
slave_lines [] = ""
slave_lines ((ip, port) ∷ l) = ip ++ " " ++ to_string port ++ "\n" ++ slave_lines l

module _ (alive : ℤ → Bool) where
  -- A local agent whose process is gone.
  unfoldable pub is_dead : AgentRecord → Bool
  is_dead r = r.slave_ip == "" && not (alive r.pid)

  abbrev pub found : String → Option AgentRecord → Master → String × Master
  found n none m = ("ERROR not_found\n", m)
  found n (some r) m =
      if is_dead r
      then ("ERROR not_found\n", record m { ams = (deregister_agent n m.ams).1 })
      else ("OK " ++ agent_line r, m)

  unfoldable pub serve_lookup : String → Master → String × Master
  serve_lookup n m = found n (find_agent n m.ams) m

  -- LIST without the answer: the dead local agents leave the registry.
  unfoldable pub purge_dead : Ams → Ams
  purge_dead a = record { registry = erase_if is_dead a.registry }

  unfoldable pub serve_list : Master → String × Master
  unfolding agent_lines
  serve_list m =
      let a = purge_dead m.ams in
      ("OK " ++ decimal (length a.registry) ++ "\n" ++ agent_lines a.registry, record m { ams = a })

unfoldable pub serve_register_slave : ℕ → String → Input → Master → String × Master
serve_register_slave now peer_ip i m = if peer_ip == "" then ("ERROR no_peer_ip\n", m) else (
  "OK " ++ peer_ip ++ "\n",
  on_slaves (register_slave now peer_ip (read_int i (pos 40015)).0)
      (record m { ams = deregister_slave peer_ip m.ams }),
)

unfoldable pub serve_deregister_slave : String → Master → String × Master
serve_deregister_slave ip m =
    ("OK\n", on_slaves (drop_slave ip) (record m { ams = deregister_slave ip m.ams }))

unfoldable pub serve_list_slaves : Option SlaveRegistry → String
unfolding slave_lines
serve_list_slaves none = "OK 0\n"
serve_list_slaves (some r) =
    "OK " ++ decimal (length (slave_list r)) ++ "\n" ++ slave_lines (slave_list r)

pub data Command : Type 0 where
  register deregister lookup_agent set_agent_state list_agents endpoint slave_in beat slave_out
        list_of_slaves unknown_command :
      Command

-- The chain of tests on the first word.
unfoldable pub command_of : String → Command
command_of cmd =
    if cmd == "REGISTER"
    then register
    else if cmd == "DEREGISTER"
    then deregister
    else if cmd == "LOOKUP"
    then lookup_agent
    else if cmd == "SETSTATE"
    then set_agent_state
    else if cmd == "LIST"
    then list_agents
    else if cmd == "REGISTER_ENDPOINT"
    then endpoint
    else if cmd == "REGISTER_SLAVE"
    then slave_in
    else if cmd == "HEARTBEAT"
    then beat
    else if cmd == "DEREGISTER_SLAVE"
    then slave_out
    else if cmd == "LIST_SLAVES"
    then list_of_slaves
    else unknown_command

module _ (alive : ℤ → Bool) where
  -- The branches.
  unfoldable pub serve_command : Command → ℕ → String → Input → Master → String × Master
  serve_command register now peer_ip i m =
      reply_if "ERROR already_registered\n" (register_agent (read_record peer_ip i) m.ams) m
  serve_command deregister now peer_ip i m =
      reply_if "ERROR not_found\n" (deregister_agent (read_word i "").0 m.ams) m
  serve_command lookup_agent now peer_ip i m = serve_lookup alive (read_word i "").0 m
  serve_command set_agent_state now peer_ip i m =
      let (name, i1) = read_word i "" in
      let (state, i2) = read_word i1 "" in
      reply_if "ERROR not_found\n" (set_state name state m.ams) m
  serve_command list_agents now peer_ip i m = serve_list alive m
  serve_command endpoint now peer_ip i m =
      ("OK\n", record m { ams = register_endpoint (read_record peer_ip i) m.ams })
  serve_command slave_in now peer_ip i m = serve_register_slave now peer_ip i m
  serve_command beat now peer_ip i m = ("OK\n", on_slaves (heartbeat now (read_word i "").0) m)
  serve_command slave_out now peer_ip i m = serve_deregister_slave (read_word i "").0 m
  serve_command list_of_slaves now peer_ip i m = (serve_list_slaves m.slave_registry, m)
  serve_command unknown_command now peer_ip i m = ("ERROR unknown_command\n", m)

  unfoldable pub handle_client : ℕ → String → String → Master → String × Master
  unfolding serve_command
  handle_client now peer_ip line m =
      let (cmd, i) = read_word (input line) "" in serve_command (command_of cmd) now peer_ip i m
