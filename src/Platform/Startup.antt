-- ===== src/Platform/Startup.antt =====
-- platform/main.cpp: how a platform starts, alone, as a master or as a slave of one, what a slave tells
-- its master, and how it stops. `connect` makes the connections; `detected` is the address that
-- `detect_local_ip` finds.
pub mod Session
pub mod Beats
pub mod Stop
use Prim.Native.Char.{code}
use Prim.Native.String.{◌++◌}
use g_agent.Base.{
  to_u16, ℕ, String, Bool, true, false, ◌&&◌, ◌||◌, not, Option, none, some, if◌then◌else◌, ◌==◌,
  nat_key, string_key, ℤ, pos, negsuc,
}
use g_agent.Platform.Input.{to_string}
use g_agent.Platform.Config.{Config, default_config, stoi}
use g_agent.Platform.Clients.{Server, is_ok, behind_ok, request}

-- The options of agentplatform.
pub record Args : Type 0 where
  pub master : Bool
  pub slave_addr : String
  pub local_ip : String
  pub port_plt : String
  pub control_port : ℤ
  pub base_port : ℤ

-- How the start ends; with a configuration, which is then written to the file. `no_number` is an
-- exception of `stoi`.
pub data Start : Type 0 where
  on_master on_slave : Config → Start
  no_master : String → ℤ → Start
  alone no_colon no_number : Start

-- The texts before and behind the last colon.
unfoldable pub split_last : String → Option (String × String)
split_last String.[] = none
split_last (String.◌∷◌ c s) = elim (split_last s) [
  | some p ↦ some (String.◌∷◌ c p.0, p.1)
  | none ↦ if code c == 58 then some ("", s) else none
]

-- The loop over `pop_back`.
unfoldable pub trim_end : String → String
trim_end String.[] = String.[]
trim_end (String.◌∷◌ c s) =
    let rest = trim_end s in
    if rest == "" && (code c == 10 || (code c == 13 || code c == 32))
    then String.[]
    else String.◌∷◌ c rest

abbrev corrected : String → Option String → String
corrected detected none = detected
corrected detected (some text) = if trim_end text == "" then detected else trim_end text

-- The address of a slave: the one given, or the one in the master's answer, or the one detected.
unfoldable pub slave_address : String → String → String → String
unfolding trim_end
slave_address detected given resp =
    if given == "" then corrected detected (behind_ok resp) else given

abbrev pub platform_config : Args → String → ℤ → String → Config
platform_config args master_ip master_port slave_ip = record default_config {
  master_ip = master_ip;
  master_port = master_port;
  slave_ip = slave_ip;
  control_port = args.control_port;
  base_port = args.base_port;
}

module _ {W : Type 0} (connect : String → ℕ → Server W) where
  unfoldable pub tcp_request : String → ℤ → String → W → String × W
  tcp_request ip port cmd w = request (connect ip (to_u16 port)) cmd w

  -- A turn of the thread that beats.
  unfoldable pub beat : Config → W → W
  unfolding tcp_request
  beat cfg w = (tcp_request cfg.master_ip cfg.master_port ("HEARTBEAT " ++ cfg.slave_ip) w).1

  -- The end of a slave that has started.
  unfoldable pub stop_slave : Config → W → W
  unfolding tcp_request
  stop_slave cfg w =
      if not (cfg.slave_ip == "")
      then (tcp_request cfg.master_ip cfg.master_port ("DEREGISTER_SLAVE " ++ cfg.slave_ip) w).1
      else w

module _ {W : Type 0} (connect : String → ℕ → Server W) (detected : String) where
  abbrev pub joined : Args → String → ℤ → String × W → Start × W
  joined args ip port (resp, w) =
      if resp == "" || not (is_ok resp)
      then (no_master ip port, w)
      else (on_slave (platform_config args ip port (slave_address detected args.local_ip resp)), w)

  abbrev pub join : Args → String → Option ℤ → W → Start × W
  join args ip none w = (no_number, w)
  join args ip (some port) w =
      joined args ip port
        (tcp_request connect ip port ("REGISTER_SLAVE " ++ to_string args.control_port) w)

  abbrev pub join_at : Args → Option (String × String) → W → Start × W
  join_at args none w = (no_colon, w)
  join_at args (some (ip, port)) w = join args ip (stoi port) w

  unfoldable pub start_slave : Args → W → Start × W
  start_slave args w = join_at args (split_last args.slave_addr) w

  abbrev master_at : Args → Option ℤ → Start
  master_at args none = no_number
  master_at args (some port) =
      on_master
        (platform_config args "" port (if args.local_ip == "" then detected else args.local_ip))

  unfoldable pub start_platform : Args → W → Start × W
  unfolding start_slave
  start_platform args w =
      if args.master
      then (master_at args (stoi args.port_plt), w)
      else if not (args.slave_addr == "")
      then start_slave args w
      else (alone, w)
