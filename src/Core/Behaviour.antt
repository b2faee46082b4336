-- ===== src/Core/Behaviour.antt =====
-- The `Behaviour` class of Behaviour.hpp and the thread function `Agent::exthread` of Agent.cpp.
-- A `Behaviour*` is a pointer; what its virtual methods do is a function on the world `W`, in which
-- the fields of all objects live. The wait of `exthread` on `runingThred` returns at once here: it
-- delays an `action` of an agent that is suspended, and does nothing else.
use mathlib.Core.Option
use g_agent.Base.{
  ℕ, zero, suc, ◌≡◌, refl, Bool, true, false, Option, none, some, if◌then◌else◌, ℤ, pos,
  Option-cases, inl, inr, subst,
}

pub record Methods (W : Type 0) : Type 0 where
  pub on_start : W → W
  pub action : W → W
  pub done : W → Bool × W
  pub on_end : W → W
  pub exit_value : W → ℤ

module _ {W : Type 0} where
  -- The methods of `Behaviour` itself, which subclasses inherit.
  abbrev pub base_methods : Methods W
  base_methods = record {
    on_start = λ w. w;
    action = λ w. w;
    done = λ w. (true, w);
    on_end = λ w. w;
    exit_value = λ w. pos 0;
  }

  -- `do { beh->action(); } while (!beh->done());` with fuel; `none` means that it ran out.
  unfoldable pub run_loop : ℕ → Methods W → W → Option W
  run_loop zero b w = none
  run_loop (suc f) b w =
      let (d, v) = b.done (b.action w) in let rest = run_loop f b v in if d then some v else rest

  unfoldable pub exthread : ℕ → Methods W → W → Option W
  unfolding run_loop
  exthread f b w = Option.map b.on_end (run_loop f b (b.on_start w))

  pub run_loop-last :
      (f : ℕ) (b : Methods W) (w : W) {v : W}
      → b.done (b.action w) ≡ (true, v)
      → run_loop (suc f) b w ≡ some v
  unfolding run_loop
  run_loop-last f b w e = rw e

  pub run_loop-more :
      (f : ℕ) (b : Methods W) (w : W) {v : W}
      → b.done (b.action w) ≡ (false, v)
      → run_loop (suc f) b w ≡ run_loop f b v
  unfolding run_loop
  run_loop-more f b w e = rw e

  -- The loop without fuel: from `w` it leaves by its test in the world `u`.
  pub data Loops (b : Methods W) : W → W → Type 0 where
    last : {w u : W} → b.done (b.action w) ≡ (true, u) → Loops b w u
    more : {w v u : W} → b.done (b.action w) ≡ (false, v) → Loops b v u → Loops b w u

  -- The thread without fuel.
  pub data Runs (b : Methods W) (w : W) : W → Type 0 where
    ran : {v : W} → Loops b (b.on_start w) v → Runs b w (b.on_end v)

  pub Loops-run_loop : {b : Methods W} {w u : W} → Loops b w u → (f : ℕ) × (run_loop f b w ≡ some u)
  unfolding run_loop
  Loops-run_loop (last e) = (1, rw e refl)
  Loops-run_loop (more e l) = let (f, h) = Loops-run_loop l in (suc f, rw e h)

  run_loop_turn :
      (f : ℕ) (b : Methods W) (w u : W) (r : Bool × W)
      → b.done (b.action w) ≡ r
      → ((v : W) → run_loop f b v ≡ some u → Loops b v u)
      → run_loop (suc f) b w ≡ some u
      → Loops b w u
  unfolding run_loop
  run_loop_turn f b w u (true, v) e ih h = let left : some v ≡ some u = rw e at h in last (cc)
  run_loop_turn f b w u (false, v) e ih h = more e (ih v (rw e at h))

  pub run_loop-Loops : (f : ℕ) (b : Methods W) (w u : W) → run_loop f b w ≡ some u → Loops b w u
  unfolding run_loop
  run_loop-Loops zero b w u h = cc
  run_loop-Loops (suc f) b w u h =
      run_loop_turn f b w u (b.done (b.action w)) refl (λ v k. run_loop-Loops f b v u k) h

  -- A thread that ends does so with some fuel.
  Runs-exthread : {b : Methods W} {w u : W} → Runs b w u → (f : ℕ) × (exthread f b w ≡ some u)
  unfolding exthread
  Runs-exthread (ran l) = let (f, h) = Loops-run_loop l in (f, rw h refl)

  -- A fuelled thread that ends is a thread that ends.
  pub exthread-Runs : (f : ℕ) (b : Methods W) (w u : W) → exthread f b w ≡ some u → Runs b w u
  unfolding exthread
  exthread-Runs f b w u h = elim (Option-cases (run_loop f b (b.on_start w))) [
    | inl e ↦ let out : none ≡ some u = rw e at h in cc
    | inr (v, e) ↦
        let ends : some (b.on_end v) ≡ some u = rw e at h in
        let left : b.on_end v ≡ u = cc in
        subst (Runs b w) left (ran (run_loop-Loops f b (b.on_start w) v e))
  ]
