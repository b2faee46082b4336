-- ===== src/Core/Timers/Waits.antt =====
-- The busy waits of the timers of Behaviour.cpp.
use g_agent.Base.{
  ℕ, zero, suc, ◌+◌, ◌-◌, ◌≤◌, ◌<◌, ◌≡◌, Bool-cases, inl, inr, some, false, leb, arith,
}
use g_agent.Core.Timers.{spin, wait}

-- The clock moves at each reading.
module _ (clock : ℕ → ℕ) (moves : (j : ℕ) → clock j < clock (suc j)) where
  -- If the fuel outlasts the time that is left, the loop leaves by its test.
  pub spin_ends :
      (f limit start k : ℕ)
      → start ≤ clock k
      → limit < f + (clock k - start)
      → (r : ℕ) × (spin clock (suc f) limit start k ≡ some (suc r))
        × (limit < clock r - start)
        × (k ≤ r)
  unfolding spin
  spin_ends zero limit start k h e =
      let over : leb (clock k - start) limit ≡ false = ground arith in
      (k, rw over, omega arith, omega arith)
  spin_ends (suc f) limit start k h e =
      let later : clock k < clock (suc k) = moves k in
      elim (Bool-cases (leb (clock k - start) limit)) [
        | inl again ↦
            let shorter : limit < f + (clock (suc k) - start) = ground arith in
            let (r, a, b, c) = spin_ends f limit start (suc k) (ground arith) shorter in
            (r, rw again a, b, omega (arith, c))
        | inr over ↦ (k, rw over, ground arith, omega arith)
      ]

  -- The wait ends, and then the clock stands more than `limit` nanoseconds beyond its first reading.
  pub wait_long :
      (limit k : ℕ) → (r : ℕ) × (wait clock limit k ≡ suc r) × (limit < clock r - clock k) × (k ≤ r)
  unfolding wait
  wait_long limit k =
      let one : clock k < clock (suc k) = moves k in
      let two : clock (suc k) < clock (suc (suc k)) = moves (suc k) in
      let (r, a, b, c) =
        spin_ends limit limit (clock k) (suc (suc k)) (ground arith) (ground arith) in
      (r, rw a, b, omega (arith, c))

  pub wait_at_least : (limit k : ℕ) → clock k + limit ≤ clock (wait clock limit k)
  wait_at_least limit k =
      let (r, a, b, c) = wait_long limit k in
      let next : clock r < clock (suc r) = moves r in rw a (ground arith)
