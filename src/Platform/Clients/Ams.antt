-- ===== src/Platform/Clients/Ams.antt =====
-- src/platform/AMSClient.cpp: the client of the AMS.
pub mod Session
pub mod Remote
pub mod Listing
pub mod Lookup
pub mod Slaves
use mathlib.Core.Option
use Prim.Native.String.{◌++◌}
use g_agent.Base.{
  ℕ, zero, suc, String, List, [], ◌∷◌, Bool, true, false, ◌&&◌, not, Option, none, some,
  if◌then◌else◌, ◌==◌, string_key, ℤ, pos, negsuc,
}
use g_agent.Platform.Input.{Input, input, read_word, read_int, to_string}
use g_agent.Platform.Config.{Config, is_cluster}
use g_agent.Platform.Clients.{
  Server, read_line, is_ok, behind_ok, request, Outcome, returns, throws, answered, read_counted,
  connected,
}

pub record AgentInfo : Type 0 where
  pub name : String
  pub address : String
  pub pid : ℤ
  pub state : String
  pub slave_ip : String

-- The part of REGISTER and REGISTER_ENDPOINT that names the slave.
slave_part : Config → String
unfolding is_cluster
slave_part cfg = if is_cluster cfg && not (cfg.slave_ip == "") then " " ++ cfg.slave_ip else ""

unfoldable pub record_text : Config → String → ℤ → String → String
unfolding slave_part to_string
record_text cfg name pid endpoint =
    name ++ (" " ++ (to_string pid ++ (" " ++ (endpoint ++ slave_part cfg))))

-- `LOOKUP` and `LIST` answer with such a line.
unfoldable pub read_info : String → AgentInfo
read_info line =
    let (name, i1) = read_word (input line) "" in
    let (pid, i2) = read_int i1 (negsuc 0) in
    let (address, i3) = read_word i2 "" in
    let (state, i4) = read_word i3 "" in
    let (slave, i5) = read_word i4 "" in
    record {
      name = name;
      address = address;
      pid = pid;
      state = state;
      slave_ip = if slave == "-" then "" else slave;
    }

-- The loop over the lines of an answer.
unfoldable pub read_infos : ℕ → String → List AgentInfo
unfolding read_info read_line
read_infos zero text = []
read_infos (suc n) text = let (line, rest) = read_line text in read_info line ∷ read_infos n rest

read_slave : String → String × ℤ
read_slave line =
    let (ip, i1) = read_word (input line) "" in let (port, i2) = read_int i1 (pos 0) in (ip, port)

unfoldable pub read_slaves : ℕ → String → List (String × ℤ)
unfolding read_slave read_line
read_slaves zero text = []
read_slaves (suc n) text = let (line, rest) = read_line text in read_slave line ∷ read_slaves n rest

abbrev pub looked_up : Bool → Option String → Outcome (Option AgentInfo)
looked_up false _ = returns none
looked_up true none = throws
looked_up true (some line) = returns (some (read_info line))

module _ {S : Type 0} (server : Server S) where
  unfoldable pub register_agent : Config → String → ℤ → String → S → Bool × S
  register_agent cfg name pid endpoint s =
      answered (request server ("REGISTER " ++ record_text cfg name pid endpoint) s)

  unfoldable pub register_endpoint : Config → String → ℤ → String → S → S
  register_endpoint cfg name pid endpoint s =
      (request server ("REGISTER_ENDPOINT " ++ record_text cfg name pid endpoint) s).1

  unfoldable pub deregister_agent : String → S → Bool × S
  deregister_agent name s = answered (request server ("DEREGISTER " ++ name) s)

  unfoldable pub lookup_agent : String → S → Outcome (Option AgentInfo) × S
  lookup_agent name s =
      let (resp, after) = request server ("LOOKUP " ++ name) s in
      (looked_up (is_ok resp) (behind_ok resp), after)

  unfoldable pub set_state : String → String → S → Bool × S
  set_state name state s = answered (request server ("SETSTATE " ++ (name ++ (" " ++ state))) s)

  unfoldable pub list : S → Outcome (List AgentInfo) × S
  list s = connected (read_counted read_infos) (server "LIST\n" s) s

  unfoldable pub list_slaves : S → Outcome (List (String × ℤ)) × S
  list_slaves s = connected (read_counted read_slaves) (server "LIST_SLAVES\n" s) s
