-- ===== src/Messaging/Mq.antt =====
-- include/gagent/messaging/AclMQ.hpp: the caches of ZeroMQ sockets, by which names become endpoints.
-- ZeroMQ, the file system, the environment and the hash function are parameters; `Z` is what they keep,
-- the AMS that the platform's client speaks to included. A socket is a number, and a failed call
-- leaves none. The waits are left out.
pub mod Binding
pub mod Receiving
pub mod Delivery
use Prim.Native.String.{◌++◌}
use g_agent.Base.{
  to_u16, ℕ, zero, suc, ◌+◌, ◌-◌, ◌%◌, String, List, [], ◌∷◌, Bool, true, false, ◌&&◌, not, Option,
  none, some, if◌then◌else◌, ◌==◌, string_key, int_key, Map, lookup, insert, erase, contains,
  or_else, ℤ, pos, negsuc,
}
use g_agent.Messaging.Message.{AclMessage}
use g_agent.Messaging.Text.Printer.{to_string}
use g_agent.Platform.Input.{decimal}
use g_agent.Platform.Config.{Config, is_cluster}
use g_agent.Platform.Clients.{Server, Outcome, returns, throws}
use g_agent.Platform.Clients.Ams.{AgentInfo, register_endpoint, deregister_agent, lookup_agent}

-- What the caches call. `ipc_file` is the file of an `ipc://` endpoint.
pub record Calls (Z : Type 0) : Type 0 where
  pub open_pull : Z → Option ℕ × Z
  pub open_push : Z → Option ℕ × Z
  pub bind : ℕ → String → Z → Bool × Z
  pub connect : ℕ → String → Z → Bool × Z
  pub send : ℕ → String → Z → Bool × Z
  pub close : ℕ → Z → Z
  pub unlink : String → Z → Z
  pub getenv : String → Option String
  pub upper : String → String
  pub hash : String → ℕ
  pub ipc_file : String → Option String
  pub ams : Server Z

pub record PullCache : Type 0 where
  pub sockets : Map String ℕ
  pub endpoints : Map String String
  pub pid : ℤ

pub record PushCache : Type 0 where
  pub sockets : Map String ℕ
  pub pid : ℤ

module _ {Z : Type 0} (c : Calls Z) where
  unfoldable pub acl_endpoint_ipc : String → String
  acl_endpoint_ipc name =
      let ep = or_else (c.getenv ("GAGENT_ENDPOINT_" ++ c.upper name)) "" in
      if ep == "" then "ipc:///tmp/acl_" ++ name else ep

  unfoldable pub close_all : Map String ℕ → Z → Z
  close_all [] z = z
  close_all ((n, s) ∷ l) z = close_all l (c.close s z)

  abbrev pub unlink_file : Option String → Z → Z
  unlink_file none z = z
  unlink_file (some f) z = c.unlink f z

  -- A process that was forked drops the sockets of its parent.
  unfoldable pub own_pull : ℤ → PullCache → Z → PullCache × Z
  unfolding close_all
  own_pull cur p z =
      if p.pid == cur
      then (p, z)
      else (record { sockets = []; endpoints = []; pid = cur }, close_all p.sockets z)

  -- The loop over the attempts: the ports from the given one on, in 16 bits.
  unfoldable pub bind_ports : ℕ → Config → ℕ → ℕ → Z → Option String × Z
  bind_ports zero cfg sock port z = (none, z)
  bind_ports (suc n) cfg sock port z =
      let (bound, z1) = c.bind sock ("tcp://*:" ++ decimal (port % 65536)) z in
      let later = bind_ports n cfg sock (suc port) z1 in
      if bound
      then (some ("tcp://" ++ cfg.slave_ip ++ ":" ++ decimal (port % 65536)), z1)
      else later

  unfoldable pub bind_local : String → ℕ → Z → Option String × Z
  unfolding acl_endpoint_ipc
  bind_local name sock z =
      let ep = acl_endpoint_ipc name in
      let (bound, z1) = c.bind sock ep (unlink_file (c.ipc_file ep) z) in
      (if bound then some ep else none, z1)

  -- The endpoint to which a new socket is bound, if any.
  unfoldable pub bind_new : Config → String → ℕ → Z → Option String × Z
  unfolding bind_ports bind_local
  bind_new cfg name sock z =
      if is_cluster cfg
      then bind_ports 100 cfg sock (to_u16 cfg.base_port + c.hash name % 15000) z
      else bind_local name sock z

  abbrev pub Found : Type 0
  Found = Option (ℕ × String) × PullCache × Z

  abbrev pub keep_bound : String → ℕ → PullCache → Option String × Z → Found
  keep_bound name sock p (none, z) = (none, p, c.close sock z)
  keep_bound name sock p (some ep, z) = (
    some (sock, ep),
    record p { sockets = insert name sock p.sockets; endpoints = insert name ep p.endpoints },
    z,
  )

  abbrev pub keep_new : Config → String → PullCache → Option ℕ × Z → Found
  keep_new cfg name p (none, z) = (none, p, z)
  keep_new cfg name p (some sock, z) = keep_bound name sock p (bind_new cfg name sock z)

  -- `endpoints_[name]` makes an empty entry where there is none.
  abbrev pub get_cached : Config → String → Option ℕ → PullCache → Z → Found
  get_cached cfg name (some sock) p z =
      let endpoints =
        if contains name p.endpoints then p.endpoints else insert name "" p.endpoints in
      (some (sock, or_else (lookup name endpoints) ""), record p { endpoints = endpoints }, z)
  get_cached cfg name none p z = keep_new cfg name p (c.open_pull z)

  -- `PullCache::get`: the socket and its endpoint. `cur` is the result of `getpid`.
  unfoldable pub get : Config → ℤ → String → PullCache → Z → Found
  get cfg cur name p z =
      let (own, z1) = own_pull cur p z in get_cached cfg name (lookup name own.sockets) own z1

  -- `PullCache::remove`
  abbrev pub remove_endpoint : String → Option String → PullCache → Z → PullCache × Z
  remove_endpoint name none p z = (p, z)
  remove_endpoint name (some ep) p z =
      (record p { endpoints = erase name p.endpoints }, unlink_file (c.ipc_file ep) z)

  abbrev pub remove_at : String → Option ℕ → PullCache → Z → PullCache × Z
  remove_at name none p z = (p, z)
  remove_at name (some sock) p z =
      remove_endpoint name (lookup name p.endpoints) (record p { sockets = erase name p.sockets })
        (c.close sock z)

  unfoldable pub remove : String → PullCache → Z → PullCache × Z
  remove name p z = remove_at name (lookup name p.sockets) p z

  abbrev pub announce : Config → ℤ → String → Found → String × PullCache × Z
  announce cfg cur name (none, p, z) = ("", p, z)
  announce cfg cur name (some (sock, ep), p, z) =
      (ep, p, if ep == "" then z else register_endpoint c.ams cfg name cur ep z)

  unfoldable pub acl_bind : Config → ℤ → String → PullCache → Z → String × PullCache × Z
  unfolding get
  acl_bind cfg cur name p z = announce cfg cur name (get cfg cur name p z)

  unfoldable pub acl_unlink : String → PullCache → Z → PullCache × Z
  unfolding remove
  acl_unlink name p z = let (q, z1) = remove name p z in (q, (deregister_agent c.ams name z1).1)

  unfoldable pub own_push : ℤ → PushCache → Z → PushCache × Z
  unfolding close_all
  own_push cur p z =
      if p.pid == cur then (p, z) else (record { sockets = []; pid = cur }, close_all p.sockets z)

  -- The address that the AMS has for the name, or the local endpoint.
  abbrev pub address_or : String → Option AgentInfo → String
  address_or ep none = ep
  address_or ep (some info) = if info.address == "" then ep else info.address

  abbrev pub resolved : String → Outcome (Option AgentInfo) × Z → Outcome String × Z
  resolved ep (returns info, z) = (returns (address_or ep info), z)
  resolved ep (throws, z) = (throws, z)

  unfoldable pub resolve : Config → String → Z → Outcome String × Z
  unfolding acl_endpoint_ipc
  resolve cfg to z =
      if is_cluster cfg
      then resolved (acl_endpoint_ipc to) (lookup_agent c.ams to z)
      else (returns (acl_endpoint_ipc to), z)

  abbrev pub Pushed : Type 0
  Pushed = Outcome (Option ℕ) × PushCache × Z

  abbrev pub keep_connected : String → ℕ → PushCache → Bool × Z → Pushed
  keep_connected to sock p (false, z) = (returns none, p, c.close sock z)
  keep_connected to sock p (true, z) =
      (returns (some sock), record p { sockets = insert to sock p.sockets }, z)

  abbrev pub connect_new : String → String → PushCache → Option ℕ × Z → Pushed
  connect_new to ep p (none, z) = (returns none, p, z)
  connect_new to ep p (some sock, z) = keep_connected to sock p (c.connect sock ep z)

  abbrev pub connect_to : String → PushCache → Outcome String × Z → Pushed
  connect_to to p (throws, z) = (throws, p, z)
  connect_to to p (returns ep, z) = connect_new to ep p (c.open_push z)

  abbrev pub push_cached : Config → String → Option ℕ → PushCache → Z → Pushed
  push_cached cfg to (some sock) p z = (returns (some sock), p, z)
  push_cached cfg to none p z = connect_to to p (resolve cfg to z)

  -- `PushCache::getOrCreate`
  unfoldable pub get_or_create : Config → ℤ → String → PushCache → Z → Pushed
  get_or_create cfg cur to p z =
      let (own, z1) = own_push cur p z in push_cached cfg to (lookup to own.sockets) own z1

  abbrev pub send_on : String → Pushed → Outcome Bool × PushCache × Z
  send_on raw (throws, p, z) = (throws, p, z)
  send_on raw (returns none, p, z) = (returns false, p, z)
  send_on raw (returns (some sock), p, z) = let (ok, z1) = c.send sock raw z in (returns ok, p, z1)

  -- `acl_send` with `PushCache::send`
  unfoldable pub acl_send :
      Config → ℤ → String → AclMessage → PushCache → Z → Outcome Bool × PushCache × Z
  unfolding get_or_create
  acl_send cfg cur to msg p z = send_on (to_string msg) (get_or_create cfg cur to p z)

  -- `acl_flush`
  unfoldable pub acl_flush : PushCache → Z → PushCache × Z
  unfolding close_all
  acl_flush p z = (record p { sockets = [] }, close_all p.sockets z)
