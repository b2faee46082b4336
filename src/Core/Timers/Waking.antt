-- ===== src/Core/Timers/Waking.antt =====
-- Threads that run the timers of Behaviour.cpp.
use g_agent.Base.{ℕ, zero, suc, ◌+◌, ◌*◌, ◌≤◌, ◌<◌, ◌≡◌, refl, arith}
use g_agent.Core.Behaviour.{Loops, last, more, Runs, ran}
use g_agent.Core.Timers.{Timed, wait, milliseconds, waker_action, waker_done, waker_methods}
use g_agent.Core.Timers.Waits.{wait_at_least}

add_up : (a b c n ms : ℕ) → a + ms ≤ b → b + n * ms ≤ c → a + suc n * ms ≤ c
add_up a b c n ms h k = omega arith

module _ (clock : ℕ → ℕ) {A : Type 0} (on_wake on_tick : A → A) where
  module _ (moves : (j : ℕ) → clock j < clock (suc j)) where
    waker-Loops :
        (n : ℕ) (w : Timed A)
        → (u : Timed A) × Loops (waker_methods clock on_wake on_tick) (n, w) (0, u)
          × (u.app ≡ on_wake w.app)
          × (clock w.reads + n * 1_000_000 ≤ clock u.reads)
    unfolding waker_action waker_done
    waker-Loops zero w = (record w { app = on_wake w.app }, last refl, refl, omega arith)
    waker-Loops (suc zero) w =
        let v : Timed A = record w { reads = wait clock (milliseconds 1) w.reads } in
        (
          record v { app = on_wake w.app },
          last refl,
          refl,
          wait_at_least clock moves (milliseconds 1) w.reads,
        )
    waker-Loops (suc (suc n)) w =
        let v : Timed A = record w { reads = wait clock (milliseconds 1) w.reads } in
        let (u, l, e, d) = waker-Loops (suc n) v in
        let first = wait_at_least clock moves (milliseconds 1) w.reads in
        (
          u,
          more refl l,
          e,
          add_up (clock w.reads) (clock v.reads) (clock u.reads) (suc n) 1_000_000 first d,
        )

    -- With a clock that is later at every reading than at the one before, a waker set to `n`
    -- milliseconds ends its thread with the timer at 0. It has called `onWake` once, and the clock has
    -- moved on by `n` milliseconds at least.
    pub waker-Runs :
        (n : ℕ) (w : Timed A)
        → (u : Timed A) × Runs (waker_methods clock on_wake on_tick) (n, w) (0, u)
          × (u.app ≡ on_wake w.app)
          × (clock w.reads + n * 1_000_000 ≤ clock u.reads)
    waker-Runs n w = let (u, l, e, d) = waker-Loops n w in (u, ran l, e, d)
