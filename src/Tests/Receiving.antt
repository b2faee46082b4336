-- ===== src/Tests/Receiving.antt =====
-- A wait for a message.
use g_agent.Base.{
  ℕ, suc, true, if◌then◌else◌, is_some, ◌≡◌, ◌≤◌, ◌<◌, arith, pos, ◌==◌, nat_key, Bool-cases, inl,
  inr,
}
use g_agent.Platform.Config.{default_config}
use g_agent.Messaging.Text.Printer.{to_string}
use g_agent.Messaging.Mq.Receiving.{
  Polled, interrupted, readable, Received, nothing_there, got, Waiting, deadline_at, acl_receive,
}
use g_agent.Messaging.Mq.Receiving.Turns.{Ticks, acl_receive-returns}
use g_agent.Tests.Messages.{counted_calls, no_sockets}
use g_agent.Tests.Texts.{offer}

-- A wait of one millisecond: an interruption, a reading of nothing, and the message.
abbrev scripted_poll : ℕ → Polled × ℕ
scripted_poll z = if z == 4 then (interrupted, suc z) else (readable, suc z)

abbrev scripted_receive : ℕ → Received × ℕ
scripted_receive z = if z == 6 then (nothing_there, z) else (got (to_string offer), z)

abbrev scripted : Waiting ℕ
scripted = record {
  clock = λ z. z;
  poll = λ sock ms z. scripted_poll z;
  receive = λ sock z. scripted_receive z;
}

scripted-Ticks : Ticks scripted
scripted-Ticks = record { polls = λ sock ms z. later z; receives = λ sock z. same z }
  where
    later : (z : ℕ) → z < (scripted_poll z).1
    later z = elim (Bool-cases (z == 4)) [ inl e ↦ rw e (omega arith) | inr e ↦ rw e (omega arith) ]

    same : (z : ℕ) → z ≤ (scripted_receive z).1
    same z = elim (Bool-cases (z == 6)) [ inl e ↦ rw e (omega arith) | inr e ↦ rw e (omega arith) ]

acl_receive-returns_example :
    is_some (
      acl_receive counted_calls scripted 1_000_001 default_config
        (pos 9)
        "bob"
        (pos 1)
        no_sockets
        3)
    ≡ true
acl_receive-returns_example =
    acl_receive-returns counted_calls scripted 1_000_001 default_config (pos 9) "bob" (pos 1)
      no_sockets 3 scripted-Ticks (unfold deadline_at in omega arith)
