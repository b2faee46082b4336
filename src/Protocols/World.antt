-- ===== src/Protocols/World.antt =====
-- What the methods of a protocol behaviour work on.
use g_agent.Base.{ℕ}

-- The memory of an agent's program and the network.
pub record World (A S : Type 0) : Type 0 where
  pub app : A
  pub net : S

-- The same with the count of the steady clock's readings: `clock k` is what the k-th reading gives, in
-- nanoseconds.
pub record ClockWorld (A S : Type 0) : Type 0 where
  pub app : A
  pub net : S
  pub reads : ℕ
