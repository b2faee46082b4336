-- ===== src/Platform/Manager.antt =====
-- platform/manager/Manager.cpp: the commands of agentmanager. The servers of the directories, the
-- control servers of the slaves and `sigqueue` are parameters; what is printed on the standard error
-- output is told by the result.
pub mod Printing
pub mod Delivery
pub mod Gates
use Prim.Native.String.{◌++◌}
use g_agent.Base.{
  to_u16, ℕ, String, List, [], ◌∷◌, Bool, true, false, ◌||◌, not, Option, none, some, if◌then◌else◌,
  ◌==◌, string_key, ℤ, pos,
}
use g_agent.Core.Lifecycle.{Signal, sig_delete, sig_suspend, sig_wake}
use g_agent.Platform.Config.{stoi}
use g_agent.Platform.Input.{to_string}
use g_agent.Platform.Clients.{Server, request, Outcome, returns, throws, answered}
use g_agent.Platform.Clients.Ams.{AgentInfo, lookup_agent, set_state, list, list_slaves}
use g_agent.Platform.Clients.Df.{ServiceInfo, search, search_ontology}

-- `send_signal` returns true for `sent`; the others stand for its messages.
pub data Sending : Type 0 where
  sent no_agent no_process unknown_signal : Sending
  no_control : String → ℤ → Sending

-- The port of the first slave with the address.
unfoldable pub control_port : String → List (String × ℤ) → ℤ
control_port ip [] = pos 40015
control_port ip ((i, port) ∷ l) = let others = control_port ip l in if i == ip then port else others

unfoldable pub command_name : Signal → Option String
command_name sig_delete = some "KILL"
command_name sig_suspend = some "SUSPEND"
command_name sig_wake = some "WAKE"
command_name _ = none

-- What becomes of the call of the control server, and of `sigqueue`.
abbrev pub controlled : {W : Type 0} → String → ℤ → Bool × W → Outcome Sending × W
controlled ip port (true, w) = (returns sent, w)
controlled ip port (false, w) = (returns (no_control ip port), w)

abbrev pub queued : {W : Type 0} → Bool × W → Outcome Sending × W
queued (true, w) = (returns sent, w)
queued (false, w) = (returns no_process, w)

-- How the program ends: with a status, by an exception that nobody catches, or never, in
-- `cmd_watch` at this interval.
pub data Ending : Type 0 where
  exits : ℕ → Ending
  aborts : Ending
  watches : ℤ → Ending

abbrev pub ending : {A W : Type 0} → Outcome A × W → Ending × W
ending (returns a, w) = (exits 0, w)
ending (throws, w) = (aborts, w)

pub data Subcommand : Type 0 where
  help list_agents watch kill suspend wake df unknown_command : Subcommand

unfoldable pub subcommand_of : String → Subcommand
subcommand_of cmd =
    if cmd == "help" || (cmd == "--help" || cmd == "-h")
    then help
    else if cmd == "list"
    then list_agents
    else if cmd == "watch"
    then watch
    else if cmd == "kill"
    then kill
    else if cmd == "suspend"
    then suspend
    else if cmd == "wake"
    then wake
    else if cmd == "df"
    then df
    else unknown_command

abbrev watch_every : Option ℤ → Ending
watch_every none = exits 1
watch_every (some ms) = watches ms

module _ {W : Type 0} (ams df_server : Server W) (connect : String → ℕ → Server W)
    (sigqueue : ℤ → Signal → W → Bool × W) where
  unfoldable pub send_remote_signal : String → ℤ → ℤ → String → W → Bool × W
  send_remote_signal ip port pid cmd w =
      answered (request (connect ip (to_u16 port)) ((cmd ++ " ") ++ to_string pid) w)

  abbrev pub send_named : AgentInfo → ℤ → Option String → W → Outcome Sending × W
  send_named info port none w = (returns unknown_signal, w)
  send_named info port (some cmd) w =
      controlled info.slave_ip port (send_remote_signal info.slave_ip port info.pid cmd w)

  abbrev pub send_away : AgentInfo → Signal → Outcome (List (String × ℤ)) × W → Outcome Sending × W
  send_away info s (throws, w) = (throws, w)
  send_away info s (returns slaves, w) =
      send_named info (control_port info.slave_ip slaves) (command_name s) w

  abbrev pub send_to : Signal → Outcome (Option AgentInfo) × W → Outcome Sending × W
  send_to s (throws, w) = (throws, w)
  send_to s (returns none, w) = (returns no_agent, w)
  send_to s (returns (some info), w) =
      if not (info.slave_ip == "")
      then send_away info s (list_slaves ams w)
      else queued (sigqueue info.pid s w)

  unfoldable pub send_signal : String → Signal → W → Outcome Sending × W
  send_signal name s w = send_to s (lookup_agent ams name w)

  unfoldable pub cmd_kill : String → W → Outcome Sending × W
  unfolding send_signal
  cmd_kill name w = send_signal name sig_delete w

  -- The state that the AMS is told, once the signal is sent.
  abbrev pub then_state : String → String → Outcome Sending × W → Outcome Sending × W
  then_state name state (returns sent, w) = (returns sent, (set_state ams name state w).1)
  then_state name state o = o

  unfoldable pub cmd_suspend : String → W → Outcome Sending × W
  cmd_suspend name w = then_state name "suspended" (send_signal name sig_suspend w)

  unfoldable pub cmd_wake : String → W → Outcome Sending × W
  cmd_wake name w = then_state name "active" (send_signal name sig_wake w)

  unfoldable pub cmd_list : W → Outcome (List AgentInfo) × W
  cmd_list w = list ams w

  unfoldable pub cmd_df_search : String → String → W → Outcome (List ServiceInfo) × W
  cmd_df_search type ontology w =
      if ontology == "" then search df_server type w else search_ontology df_server type ontology w

  abbrev df_searched : String → String → String → W → Ending × W
  df_searched verb type ontology w =
      if not (verb == "search") then (exits 1, w) else ending (cmd_df_search type ontology w)

  -- The branches, with the arguments behind the subcommand.
  unfoldable pub dispatch : Subcommand → List String → W → Ending × W
  unfolding cmd_kill cmd_suspend cmd_wake cmd_list cmd_df_search
  dispatch help args w = (exits 0, w)
  dispatch list_agents args w = ending (cmd_list w)
  dispatch watch [] w = (watches (pos 1000), w)
  dispatch watch (ms ∷ args) w = (watch_every (stoi ms), w)
  dispatch kill [] w = (exits 1, w)
  dispatch kill (name ∷ args) w = ending (cmd_kill name w)
  dispatch suspend [] w = (exits 1, w)
  dispatch suspend (name ∷ args) w = ending (cmd_suspend name w)
  dispatch wake [] w = (exits 1, w)
  dispatch wake (name ∷ args) w = ending (cmd_wake name w)
  dispatch df [] w = (exits 1, w)
  dispatch df (verb ∷ []) w = (exits 1, w)
  dispatch df (verb ∷ type ∷ []) w = df_searched verb type "" w
  dispatch df (verb ∷ type ∷ ontology ∷ args) w = df_searched verb type ontology w
  dispatch unknown_command args w = (exits 1, w)

  -- `run`, on `argv`.
  unfoldable pub run : List String → W → Ending × W
  unfolding dispatch subcommand_of
  run [] w = (exits 0, w)
  run (program ∷ []) w = (exits 0, w)
  run (program ∷ cmd ∷ args) w = dispatch (subcommand_of cmd) args w
