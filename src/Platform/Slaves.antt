-- ===== src/Platform/Slaves.antt =====
-- SlaveRegistry.cpp: the slave platforms that a master knows. `now` is the reading of the steady
-- clock, in nanoseconds; the mutex makes each operation one step.
use g_agent.Base.{
  ℕ, ◌-◌, ◌*◌, String, List, [], ◌∷◌, Bool, Option, none, some, if◌then◌else◌, ltb, string_key, Map,
  lookup, insert, erase, ℤ, negsuc, map,
}

pub record SlaveInfo : Type 0 where
  pub control_port : ℤ
  pub last_heartbeat : ℕ

pub record SlaveRegistry : Type 0 where
  pub slaves : Map String SlaveInfo

unfoldable pub register_slave : ℕ → String → ℤ → SlaveRegistry → SlaveRegistry
register_slave now ip port r = record {
  slaves = insert ip (record { control_port = port; last_heartbeat = now }) r.slaves;
}

abbrev pub beat_at : ℕ → String → Option SlaveInfo → SlaveRegistry → SlaveRegistry
beat_at now ip none r = r
beat_at now ip (some info) r = record {
  slaves = insert ip (record info { last_heartbeat = now }) r.slaves;
}

unfoldable pub heartbeat : ℕ → String → SlaveRegistry → SlaveRegistry
heartbeat now ip r = beat_at now ip (lookup ip r.slaves) r

unfoldable pub drop_slave : String → SlaveRegistry → SlaveRegistry
drop_slave ip r = record { slaves = erase ip r.slaves }

unfoldable pub control_port_of : String → SlaveRegistry → ℤ
control_port_of ip r = elim (lookup ip r.slaves) [ none ↦ negsuc 0 | some info ↦ info.control_port ]

-- `list`
unfoldable pub slave_list : SlaveRegistry → List (String × ℤ)
slave_list r = map (λ e. (e.0, e.1.control_port)) r.slaves

-- Seconds in nanoseconds.
abbrev pub seconds : ℕ → ℕ
seconds n = n * 1_000_000_000

-- A heartbeat older than the limit.
unfoldable pub is_late : ℕ → ℕ → SlaveInfo → Bool
is_late timeout_s now info = ltb (seconds timeout_s) (now - info.last_heartbeat)

-- The addresses that the watchdog collects under the lock.
unfoldable pub dead_slaves : ℕ → ℕ → Map String SlaveInfo → List String
unfolding is_late
dead_slaves timeout_s now [] = []
dead_slaves timeout_s now ((ip, info) ∷ m) =
    if is_late timeout_s now info
    then ip ∷ dead_slaves timeout_s now m
    else dead_slaves timeout_s now m
