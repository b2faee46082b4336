-- ===== src/Messaging/Mq/Receiving.antt =====
-- `acl_receive` of include/gagent/messaging/AclMQ.hpp. The clock, in nanoseconds, and the two calls of
-- ZeroMQ are parameters; time passes in the calls.
pub mod Turns
use mathlib.Core.Option
use g_agent.Base.{
  ℕ, zero, suc, ◌+◌, ◌-◌, ◌*◌, ◌/◌, String, Option, none, some, if◌then◌else◌, leb, min, ℤ, pos,
  negsuc,
}
use g_agent.Platform.Config.{Config}
use g_agent.Messaging.Message.{AclMessage}
use g_agent.Messaging.Text.Parser.{parse}
use g_agent.Messaging.Mq.{Calls, PullCache, get, Found}

-- The result of `zmq_poll`: EINTR, another error, nothing in time, or a socket to read from.
pub data Polled : Type 0 where
  interrupted poll_failed quiet readable : Polled

-- The result of `zmq_msg_recv`: EAGAIN, another error, or the text of a message.
pub data Received : Type 0 where
  nothing_there receive_failed : Received
  got : String → Received

-- What a wait calls. `poll` is given the socket and the milliseconds.
pub record Waiting (Z : Type 0) : Type 0 where
  pub clock : Z → ℕ
  pub poll : ℕ → ℕ → Z → Polled × Z
  pub receive : ℕ → Z → Received × Z

-- Milliseconds behind a reading of the clock; a deadline before the first reading has passed.
unfoldable pub deadline_at : ℕ → ℤ → ℕ
deadline_at now (pos ms) = now + ms * 1_000_000
deadline_at now (negsuc n) = now - (n + 1) * 1_000_000

abbrev pub poll_time : ℕ → ℕ → ℕ
poll_time deadline now = min 500 ((deadline - now) / 1_000_000)

module _ {Z : Type 0} (w : Waiting Z) (sock deadline : ℕ) where
  -- Nothing where the fuel is spent.
  abbrev pub Waited : Type 0
  Waited = Option (Option AclMessage × Z)

  abbrev pub on_received : (Z → Waited) → Received × Z → Waited
  on_received again (nothing_there, z) = again z
  on_received again (receive_failed, z) = some (none, z)
  on_received again (got raw, z) = some (parse raw, z)

  abbrev pub on_polled : (Z → Waited) → Polled × Z → Waited
  on_polled again (interrupted, z) = again z
  on_polled again (poll_failed, z) = some (none, z)
  on_polled again (quiet, z) = again z
  on_polled again (readable, z) = on_received again (w.receive sock z)

  -- The loop.
  unfoldable pub wait : ℕ → Z → Waited
  wait zero z = none
  wait (suc n) z =
      if leb deadline (w.clock z)
      then some (none, z)
      else on_polled (wait n) (w.poll sock (poll_time deadline (w.clock z)) z)

module _ {Z : Type 0} (c : Calls Z) (w : Waiting Z) where
  abbrev pub receive_on : ℕ → ℤ → Found c → Option (Option AclMessage × PullCache × Z)
  receive_on fuel timeout_ms (none, p, z) = some (none, p, z)
  receive_on fuel timeout_ms (some (sock, ep), p, z) =
      Option.map (λ r. (r.0, p, r.1)) (wait w sock (deadline_at (w.clock z) timeout_ms) fuel z)

  unfoldable pub acl_receive :
      ℕ → Config → ℤ → String → ℤ → PullCache → Z → Option (Option AclMessage × PullCache × Z)
  acl_receive fuel cfg cur name timeout_ms p z = receive_on fuel timeout_ms (get c cfg cur name p z)
