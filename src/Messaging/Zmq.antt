-- ===== src/Messaging/Zmq.antt =====
-- include/gagent/messaging/ZmqTransport.hpp: the transport over ZeroMQ, which calls the functions of
-- AclMQ.hpp. Both caches are of the process `cur`; the fuel is for each wait.
use g_agent.Base.{ℕ, String, Bool, Option, none, some, ℤ}
use g_agent.Platform.Config.{Config}
use g_agent.Platform.Clients.{Outcome}
use g_agent.Messaging.Message.{AclMessage}
use g_agent.Messaging.Mq.{Calls, PullCache, PushCache, acl_bind, acl_send, acl_unlink, acl_flush}
use g_agent.Messaging.Mq.Receiving.{Waiting, acl_receive}

-- The caches of a process, with what ZeroMQ keeps.
pub record Sockets (Z : Type 0) : Type 0 where
  pub pulls : PullCache
  pub pushes : PushCache
  pub net : Z

module _ {Z : Type 0} (c : Calls Z) (w : Waiting Z) (cfg : Config) (cur : ℤ) where
  unfoldable pub bind : String → Sockets Z → String × Sockets Z
  unfolding acl_bind
  bind name s =
      let (ep, p, z) = acl_bind c cfg cur name s.pulls s.net in
      (ep, record s { pulls = p; net = z })

  unfoldable pub send : String → AclMessage → Sockets Z → Outcome Bool × Sockets Z
  unfolding acl_send
  send to msg s =
      let (ok, p, z) = acl_send c cfg cur to msg s.pushes s.net in
      (ok, record s { pushes = p; net = z })

  abbrev received_on :
      Option (Option AclMessage × PullCache × Z)
      → Sockets Z
      → Option (Option AclMessage × Sockets Z)
  received_on none s = none
  received_on (some (m, p, z)) s = some (m, record s { pulls = p; net = z })

  unfoldable pub receive : ℕ → String → ℤ → Sockets Z → Option (Option AclMessage × Sockets Z)
  unfolding acl_receive
  receive fuel name timeout_ms s =
      received_on (acl_receive c w fuel cfg cur name timeout_ms s.pulls s.net) s

  unfoldable pub unlink : String → Sockets Z → Sockets Z
  unfolding acl_unlink
  unlink name s = let (p, z) = acl_unlink c name s.pulls s.net in record s { pulls = p; net = z }

  unfoldable pub flush : Sockets Z → Sockets Z
  unfolding acl_flush
  flush s = let (p, z) = acl_flush c s.pushes s.net in record s { pushes = p; net = z }
