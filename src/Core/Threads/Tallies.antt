-- ===== src/Core/Threads/Tallies.antt =====
-- How often the threads of an agent call the methods of their behaviours, in src/core/Agent.cpp.
use g_agent.Base.{
  ℕ, suc, ◌≤◌, List, [], ◌∷◌, Bool, true, false, Option, none, some, if◌then◌else◌, ◌==◌, nat_key,
  nat_beq_iff, ◌≡◌, refl, sym, ap, ◌∙◌, subst, arith, Bool-cases, inl, inr,
}
use g_agent.Core.Behaviour.{Methods}
use g_agent.Core.Threads.{
  Place, to_start, at_gate, to_test, to_end, over, Event, starts, acts, tests, ends, gates,
  takes_down, Threads, step_at, step, then_run, run,
}

-- The calls of `onStart`, `action`, `done` and `onEnd` by one thread.
pub record Tally : Type 0 where
  pub started : ℕ
  pub acted : ℕ
  pub tested : ℕ
  pub ended : ℕ

abbrev pub no_calls : Tally
no_calls = record { started = 0; acted = 0; tested = 0; ended = 0 }

abbrev pub count_call : ℕ → Event → Tally → Tally
count_call k (starts i) c = if k == i then record c { started = suc c.started } else c
count_call k (acts i) c = if k == i then record c { acted = suc c.acted } else c
count_call k (tests i) c = if k == i then record c { tested = suc c.tested } else c
count_call k (ends i) c = if k == i then record c { ended = suc c.ended } else c
count_call k _ c = c

abbrev pub tally : ℕ → List Event → Tally → Tally
tally k [] c = c
tally k (e ∷ es) c = tally k es (count_call k e c)

-- What the calls are at a place.
abbrev pub Fits : Place → Tally → Type 0
Fits to_start c = (c.started ≡ 0) × (c.acted ≡ 0) × (c.tested ≡ 0) × (c.ended ≡ 0)
Fits at_gate c = (c.started ≡ 1) × (c.acted ≡ c.tested) × (c.ended ≡ 0)
Fits to_test c = (c.started ≡ 1) × (c.acted ≡ suc c.tested) × (c.ended ≡ 0)
Fits to_end c = (c.started ≡ 1) × (c.acted ≡ c.tested) × (1 ≤ c.acted) × (c.ended ≡ 0)
Fits over c = (c.started ≡ 1) × (c.acted ≡ c.tested) × (1 ≤ c.acted) × (c.ended ≡ 1)

-- One thread moves to another place by a call, and the others stay.
moved :
    (i k : ℕ) (p q : Place) (c called : Tally) (places : ℕ → Place)
    → places i ≡ p
    → (Fits p c → Fits q called)
    → Fits (places k) c
    → Fits (if k == i then q else places k) (if k == i then called else c)
moved i k p q c called places e g f = elim (Bool-cases (k == i)) [
  | inr n ↦ rw n f
  | inl y ↦ rw y (g (subst (λ a. Fits a c) (ap places ((nat_beq_iff k i).0 y) ∙ e) f))
]

module _ {W : Type 0} (beh : ℕ → Methods W) (take_down : W → W) where
  abbrev pub result : Threads W → Option (Threads W) → Threads W
  result t none = t
  result t (some u) = u

  same :
      (t u v : Threads W) (k : ℕ) (c : Tally)
      → some v ≡ some u
      → Fits (v.places k) c
      → Fits (u.places k) c
  same t u v k c h f = subst (λ u. Fits (u.places k) c) (ap (result t) h) f

  step_at-starts :
      (k i : ℕ) (p : Place) (t u : Threads W) (c : Tally)
      → t.places i ≡ p
      → step_at beh take_down (starts i) p t ≡ some u
      → Fits (t.places k) c
      → Fits (u.places k) (count_call k (starts i) c)
  step_at-starts k i to_start t u c g h f = same t u _ k _ h (
      moved i k to_start at_gate c (record c { started = suc c.started }) t.places g
        (λ f. (ap suc f.0, f.1 ∙ sym f.2, f.3)) f)
  step_at-starts k i _ t u c g h f = cc

  step_at-acts :
      (k i : ℕ) (p : Place) (t u : Threads W) (c : Tally)
      → t.places i ≡ p
      → step_at beh take_down (acts i) p t ≡ some u
      → Fits (t.places k) c
      → Fits (u.places k) (count_call k (acts i) c)
  step_at-acts k i at_gate t u c g h f = elim (Bool-cases t.running) [
    | inl open_gate ↦ same t u _ k _ (rw open_gate at h) (
        moved i k at_gate to_test c (record c { acted = suc c.acted }) t.places g
          (λ f. (f.0, ap suc f.1, f.2)) f)
    | inr closed ↦ absurd (no_step (rw closed at h))
  ]
    where
      no_step : none ≡ some u → ⊥
      no_step h = cc
  step_at-acts k i _ t u c g h f = cc

  step_at-tests :
      (k i : ℕ) (p : Place) (t u : Threads W) (c : Tally)
      → t.places i ≡ p
      → step_at beh take_down (tests i) p t ≡ some u
      → Fits (t.places k) c
      → Fits (u.places k) (count_call k (tests i) c)
  step_at-tests k i to_test t u c g h f = same t u _ k _ h (
      moved i k to_test (if ((beh i).done t.world).0 then to_end else at_gate) c
        (record c { tested = suc c.tested }) t.places g (by_answer ((beh i).done t.world).0) f)
    where
      by_answer :
          (d : Bool)
          → Fits to_test c
          → Fits (if d then to_end else at_gate) (record c { tested = suc c.tested })
      by_answer true f = (f.0, f.1, omega (arith, f.1), f.2)
      by_answer false f = (f.0, f.1, f.2)
  step_at-tests k i _ t u c g h f = cc

  step_at-ends :
      (k i : ℕ) (p : Place) (t u : Threads W) (c : Tally)
      → t.places i ≡ p
      → step_at beh take_down (ends i) p t ≡ some u
      → Fits (t.places k) c
      → Fits (u.places k) (count_call k (ends i) c)
  step_at-ends k i to_end t u c g h f = same t u _ k _ h (
      moved i k to_end over c (record c { ended = suc c.ended }) t.places g
        (λ f. (f.0, f.1, f.2, ap suc f.3)) f)
  step_at-ends k i _ t u c g h f = cc

  pub started_only :
      (b : Bool) (o : Option (Threads W)) (u : Threads W)
      → (if b then o else none) ≡ some u
      → o ≡ some u
  started_only true o u h = h
  started_only false o u h = cc

  step-Fits :
      (k : ℕ) (e : Event) (t u : Threads W) (c : Tally)
      → step beh take_down e t ≡ some u
      → Fits (t.places k) c
      → Fits (u.places k) (count_call k e c)
  unfolding step
  step-Fits k (starts i) t u c h f =
      step_at-starts k i (t.places i) t u c refl (started_only _ _ u h) f
  step-Fits k (acts i) t u c h f = step_at-acts k i (t.places i) t u c refl (started_only _ _ u h) f
  step-Fits k (tests i) t u c h f =
      step_at-tests k i (t.places i) t u c refl (started_only _ _ u h) f
  step-Fits k (ends i) t u c h f = step_at-ends k i (t.places i) t u c refl (started_only _ _ u h) f
  step-Fits k (gates b) t u c h f = same t u _ k _ h f
  step-Fits k takes_down t u c h f = same t u _ k _ (started_only _ _ u h) f

  pub run-step :
      (e : Event) (es : List Event) (t u : Threads W)
      → run beh take_down (e ∷ es) t ≡ some u
      → (v : Threads W) × (step beh take_down e t ≡ some v) × (run beh take_down es v ≡ some u)
  unfolding run
  run-step e es t u h = stepped (step beh take_down e t) refl h
    where
      stepped :
          (o : Option (Threads W))
          → step beh take_down e t ≡ o
          → then_run beh take_down (run beh take_down es) o ≡ some u
          → (v : Threads W) × (step beh take_down e t ≡ some v) × (run beh take_down es v ≡ some u)
      stepped none g h = cc
      stepped (some v) g h = (v, g, h)

  pub run-Fits :
      (k : ℕ) (es : List Event) (t u : Threads W) (c : Tally)
      → run beh take_down es t ≡ some u
      → Fits (t.places k) c
      → Fits (u.places k) (tally k es c)
  unfolding run
  run-Fits k [] t u c h f = same t u _ k _ h f
  run-Fits k (e ∷ es) t u c h f =
      let (v, g, later) = run-step e es t u h in
      run-Fits k es v u (count_call k e c) later (step-Fits k e t v c g f)
