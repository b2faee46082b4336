-- ===== src/Messaging/Mq/Delivery.antt =====
-- Messages from `acl_send` of one process to `acl_receive` of another, in
-- include/gagent/messaging/AclMQ.hpp.
use mathlib.Core.Option
use g_agent.Base.{
  Bool, ℕ, zero, suc, ◌<◌, String, List, [], ◌∷◌, ◌++◌, map, length, true, Option, none, some,
  lookup, string_key, int_key, ◌==◌, ◌≡◌, ℤ,
}
use g_agent.Platform.Config.{Config}
use g_agent.Platform.Clients.{Outcome}
use g_agent.Messaging.Message.{AclMessage}
use g_agent.Messaging.Text.Printer.Lines.{Wordy}
use g_agent.Messaging.Text.Printer.Clean.{nul_free}
use g_agent.Messaging.Mq.{Calls, PullCache, PushCache, acl_send}
use g_agent.Messaging.Mq.Receiving.{Waiting, readable, got, acl_receive}

-- What ZeroMQ does between a PUSH socket and the PULL socket that it is connected to: texts are kept in
-- order until they are read, as long as fewer wait than the limit, and a poll says so when there is one.
pub record Pipe {Z : Type 0} (c : Calls Z) (w : Waiting Z) (out inp : ℕ) : Type 0 where
  pub limit : ℕ
  pub queued : Z → List String
  pub send_queued :
      (raw : String) (z : Z)
      → length (queued z) < limit
      → ((c.send out raw z).0 ≡ true) × (queued (c.send out raw z).1 ≡ queued z ++ raw ∷ [])
  pub poll_queued :
      (ms : ℕ) (z : Z) (t : String) (rest : List String)
      → queued z ≡ t ∷ rest
      → ((w.poll inp ms z).0 ≡ readable) × (queued (w.poll inp ms z).1 ≡ t ∷ rest)
  pub receive_queued :
      (z : Z) (t : String) (rest : List String)
      → queued z ≡ t ∷ rest
      → ((w.receive inp z).0 ≡ got t) × (queued (w.receive inp z).1 ≡ rest)

-- The cache of the process has the socket.
pub record Connected (cur : ℤ) (to : String) (out : ℕ) (p : PushCache) : Type 0 where
  pub own : (p.pid == cur) ≡ true
  pub there : lookup to p.sockets ≡ some out

pub record Bound (cur : ℤ) (name : String) (inp : ℕ) (ep : String) (p : PullCache) : Type 0 where
  pub own : (p.pid == cur) ≡ true
  pub there : lookup name p.sockets ≡ some inp
  pub known : lookup name p.endpoints ≡ some ep

module _ {Z : Type 0} (c : Calls Z) (w : Waiting Z) (cfg : Config) where
  -- One `acl_send` after another, with their results.
  unfoldable pub send_all :
      ℤ → String → List AclMessage → PushCache → Z → List (Outcome Bool) × PushCache × Z
  send_all cur to [] p z = ([], p, z)
  send_all cur to (m ∷ ms) p z =
      let (ok, q, z1) = acl_send c cfg cur to m p z in
      let (oks, r, z2) = send_all cur to ms q z1 in (ok ∷ oks, r, z2)

  abbrev pub Taken : Type 0
  Taken = Option (List AclMessage × PullCache × Z)

  abbrev pub then_take :
      (PullCache → Z → Taken) → Option (Option AclMessage × PullCache × Z) → Taken
  then_take more none = none
  then_take more (some (none, p, z)) = some ([], p, z)
  then_take more (some (some m, p, z)) = Option.map (λ r. (m ∷ r.0, r.1, r.2)) (more p z)

  -- `acl_receive` as many times, as long as there are messages.
  unfoldable pub receive_all : ℕ → ℤ → String → ℤ → ℕ → PullCache → Z → Taken
  receive_all fuel cur name timeout_ms zero p z = some ([], p, z)
  receive_all fuel cur name timeout_ms (suc n) p z =
      then_take (receive_all fuel cur name timeout_ms n)
        (acl_receive c w fuel cfg cur name timeout_ms p z)

-- A message whose text is read back.
pub record Sendable (m : AclMessage) : Type 0 where
  pub wordy : Wordy m
  pub no_nul : nul_free m.content ≡ true
