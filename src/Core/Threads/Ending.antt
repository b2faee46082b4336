-- ===== src/Core/Threads/Ending.antt =====
-- The end of an agent of src/core/Agent.cpp: `takeDown` comes after the joins of all threads.
use g_agent.Base.{
  ℕ, zero, suc, ◌≤◌, ◌<◌, List, [], ◌∷◌, Bool, true, false, ◌&&◌, not, none, some, if◌then◌else◌,
  ltb, ◌==◌, nat_key, nat_beq_iff, both_true, ◌≡◌, refl, sym, ap, ◌∙◌, subst, arith, Bool-cases,
  inl, inr,
}
use g_agent.Core.Behaviour.{Methods}
use g_agent.Core.Threads.Tallies.{no_calls, tally, Fits, result, started_only, run-step, run-Fits}
use g_agent.Core.Threads.{
  Place, to_start, at_gate, to_test, to_end, over, is_over, Event, starts, acts, tests, ends, gates,
  takes_down, Threads, all_over, step_at, step, run, made,
}

ltb_less : (a b : ℕ) → ltb a b ≡ true → a < b
ltb_less a b h = ground arith

below : (k n : ℕ) → ltb k (suc n) ≡ true → (k == n) ≡ false → ltb k n ≡ true
below k n h e = ground (arith, nat_beq_iff k n)

module _ {W : Type 0} (beh : ℕ → Methods W) (take_down : W → W) where
  -- Once the agent is taken down, all of its threads have ended.
  record Down (n : ℕ) (t : Threads W) : Type 0 where
    same_count : t.count ≡ n
    threads_over : t.is_down ≡ true → (k : ℕ) → ltb k t.count ≡ true → is_over (t.places k) ≡ true

  shape :
      (t u v : Threads W)
      → some v ≡ some u
      → v.is_down ≡ t.is_down
      → v.count ≡ t.count
      → (u.is_down ≡ t.is_down) × (u.count ≡ t.count)
  shape t u v h d c = (
    ap (λ o. (result beh take_down t o).is_down) (sym h) ∙ d,
    ap (λ o. (result beh take_down t o).count) (sym h) ∙ c,
  )

  -- A call leaves the flag and the count, and its thread has not ended before.
  step_at-is_down :
      (e : Event) (p : Place) (t u : Threads W)
      → step_at beh take_down e p t ≡ some u
      → (is_over p ≡ false) × (u.is_down ≡ t.is_down) × (u.count ≡ t.count)
  step_at-is_down (starts k) to_start t u h =
      let (down, count) = shape t u _ h refl refl in (refl, down, count)
  step_at-is_down (acts k) at_gate t u h =
      let (down, count) = shape t u _ (started_only beh take_down _ _ u h) refl refl in
      (refl, down, count)
  step_at-is_down (tests k) to_test t u h =
      let (down, count) = shape t u _ h refl refl in (refl, down, count)
  step_at-is_down (ends k) to_end t u h =
      let (down, count) = shape t u _ h refl refl in (refl, down, count)
  step_at-is_down e p t u h = cc

  all_over-at :
      (n k : ℕ) (places : ℕ → Place)
      → all_over n places ≡ true
      → ltb k n ≡ true
      → is_over (places k) ≡ true
  unfolding all_over
  all_over-at zero k places h l = absurd (omega (arith, ltb_less k 0 l))
  all_over-at (suc n) k places h l = elim (Bool-cases (k == n)) [
    | inl e ↦
        ap (λ j. is_over (places j)) ((nat_beq_iff k n).0 e)
        ∙ (both_true (is_over (places n)) (all_over n places) h).0
    | inr e ↦
        all_over-at n k places (both_true (is_over (places n)) (all_over n places) h).1
          (below k n l e)
  ]

  called-Down :
      (n : ℕ) (e : Event) (i : ℕ) (t u : Threads W)
      → (if ltb i t.count then step_at beh take_down e (t.places i) t else none) ≡ some u
      → Down n t
      → Down n u
  called-Down n e i t u h d = elim (Bool-cases (ltb i t.count)) [
    | inr far ↦ absurd (no_step (rw far at h))
    | inl near ↦
        let (alive, down, count) = step_at-is_down e (t.places i) t u (rw near at h) in
        record {
          same_count = count ∙ d.same_count;
          threads_over =
              λ y k l. absurd (true-false (sym (d.threads_over (sym down ∙ y) i near) ∙ alive));
        }
  ]
    where
      no_step : none ≡ some u → ⊥
      no_step h = cc

      true-false : true ≡ false → ⊥
      true-false h = cc

  step-Down :
      (n : ℕ) (e : Event) (t u : Threads W) → step beh take_down e t ≡ some u → Down n t → Down n u
  unfolding step
  step-Down n (starts i) t u h d = called-Down n (starts i) i t u h d
  step-Down n (acts i) t u h d = called-Down n (acts i) i t u h d
  step-Down n (tests i) t u h d = called-Down n (tests i) i t u h d
  step-Down n (ends i) t u h d = called-Down n (ends i) i t u h d
  step-Down n (gates b) t u h d =
      subst (Down n) (ap (result beh take_down t) h)
        (record { same_count = d.same_count; threads_over = d.threads_over })
  step-Down n takes_down t u h d = elim (Bool-cases (not t.is_down && all_over t.count t.places)) [
    | inr e ↦ absurd (no_step (rw e at h))
    | inl e ↦ subst (Down n) (ap (result beh take_down t) (rw e at h)) (record {
      same_count = d.same_count;
      threads_over = λ y k l.
          all_over-at t.count k t.places (both_true (not t.is_down) (all_over t.count t.places) e).1
            l;
    })
  ]
    where
      no_step : none ≡ some u → ⊥
      no_step h = cc

  run-Down :
      (n : ℕ) (es : List Event) (t u : Threads W)
      → run beh take_down es t ≡ some u
      → Down n t
      → Down n u
  unfolding run
  run-Down n [] t u h d = subst (Down n) (ap (result beh take_down t) h) d
  run-Down n (e ∷ es) t u h d =
      let (v, g, later) = run-step beh take_down e es t u h in
      run-Down n es v u later (step-Down n e t v g d)

  -- An agent is taken down after its behaviours, and each of them runs once: in any run of the threads
  -- of an agent, in any order and with the gate closed and opened at any time, that reaches the take
  -- down, the thread of each behaviour has called `onStart` once, `action` at least once and as often
  -- as `done`, and `onEnd` once.
  pub run-is_down :
      (n : ℕ) (running : Bool) (w : W) (es : List Event) (u : Threads W) (k : ℕ)
      → run beh take_down es (made n running w) ≡ some u
      → u.is_down ≡ true
      → ltb k n ≡ true
      → let c = tally k es no_calls in
        (c.started ≡ 1) × (c.acted ≡ c.tested) × (1 ≤ c.acted) × (c.ended ≡ 1)
  run-is_down n running w es u k h d l =
      let start : Down n (made n running w) = record {
        same_count = refl;
        threads_over = λ y. absurd (up y);
      } in
      let down = run-Down n es (made n running w) u h start in
      at_end (u.places k) (down.threads_over d k (ap (ltb k) down.same_count ∙ l))
        (run-Fits beh take_down k es (made n running w) u no_calls h (refl, refl, refl, refl))
    where
      up : false ≡ true → ⊥
      up h = cc

      at_end :
          (p : Place)
          → is_over p ≡ true
          → Fits p (tally k es no_calls)
          → Fits over (tally k es no_calls)
      at_end over e f = f
      at_end _ e f = cc
