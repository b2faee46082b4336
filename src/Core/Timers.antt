-- ===== src/Core/Timers.antt =====
-- The simple behaviours of Behaviour.cpp: OneShotBehaviour, CyclicBehaviour, WakerBehaviour and
-- TickerBehaviour. `clock k` is what the k-th reading of `high_resolution_clock` gives, in
-- nanoseconds; the world counts the readings. Times are compared exactly: the source converts them
-- to `double` milliseconds, which is exact up to 2^53 nanoseconds.
pub mod Waits
pub mod Waking
use g_agent.Base.{
  ℕ, zero, suc, ◌+◌, ◌-◌, ◌*◌, Bool, true, false, Option, none, some, if◌then◌else◌, leb, ◌==◌,
  nat_key, or_else, pos,
}
use g_agent.Core.Behaviour.{Methods, base_methods}

-- The fields of the agent's program, and the count of clock readings.
pub record Timed (A : Type 0) : Type 0 where
  pub app : A
  pub reads : ℕ

-- `OneShotBehaviour` with an overridden `action`.
abbrev pub one_shot_methods : {W : Type 0} → (W → W) → Methods W
one_shot_methods act = record base_methods { action = act; done = λ w. (true, w) }

abbrev pub cyclic_methods : {W : Type 0} → (W → W) → Methods W
cyclic_methods act = record base_methods { action = act; done = λ w. (false, w) }

-- Nanoseconds.
abbrev pub milliseconds : ℕ → ℕ
milliseconds n = n * 1_000_000

module _ (clock : ℕ → ℕ) where
  -- `do { end = now(); elapsed = end - start; } while (elapsed <= timeToWait);` with fuel: the
  -- count of readings after it. The clock does not go back, so the difference is that of numbers.
  unfoldable pub spin : ℕ → ℕ → ℕ → ℕ → Option ℕ
  spin zero limit start k = none
  spin (suc f) limit start k =
      let rest = spin f limit start (suc k) in
      if leb (clock k - start) limit then rest else some (suc k)

  -- `start` and `end` are read before the loop. The fuel is enough for a clock that moves at each
  -- reading.
  unfoldable pub wait : ℕ → ℕ → ℕ
  unfolding spin
  wait limit k = or_else (spin (suc limit) limit (clock k) (suc (suc k))) k

  module _ {A : Type 0} (on_wake on_tick : A → A) where
    -- The timer, an unsigned int, stands beside the world.
    unfoldable pub waker_action : ℕ × Timed A → ℕ × Timed A
    waker_action (zero, w) = (zero, w)
    waker_action (suc n, w) = (n, record w { reads = wait (milliseconds 1) w.reads })

    unfoldable pub waker_done : ℕ × Timed A → Bool × (ℕ × Timed A)
    waker_done (zero, w) = (true, (zero, record w { app = on_wake w.app }))
    waker_done (suc n, w) = (false, (suc n, w))

    abbrev pub waker_methods : Methods (ℕ × Timed A)
    waker_methods = record base_methods { action = waker_action; done = waker_done }

    unfoldable pub ticker_action : ℕ × Timed A → ℕ × Timed A
    ticker_action (n, w) =
        (n, record w { app = on_tick w.app; reads = wait (milliseconds n) w.reads })

    abbrev pub ticker_methods : Methods (ℕ × Timed A)
    ticker_methods = record base_methods { action = ticker_action; done = λ w. (false, w) }
