-- ===== src/Core/Parallel.antt =====
-- `ParallelBehaviour` of Behaviour.cpp. As in `Sequential`, the fields stand beside the world and
-- `obj` gives the methods of the child behind a pointer.
pub mod Done
pub mod Apart
use g_agent.Base.{
  ℕ, zero, suc, List, [], ◌∷◌, Bool, true, false, ◌&&◌, ◌||◌, not, if◌then◌else◌, pos, length,
  replicate, is_empty, ◌==◌, nat_key,
}
use g_agent.Core.Behaviour.{Methods}
use g_agent.Core.Sequential.{Composite}

pub data WhenDone : Type 0 where
  all any : WhenDone

pub record Parallel : Type 0 where
  pub composite : Composite
  pub open composite use *
  pub when_done : WhenDone
  pub ended : List Bool

-- `ended_.resize(n, false)`
unfoldable pub resize : ℕ → List Bool → List Bool
resize zero es = []
resize (suc n) [] = false ∷ resize n []
resize (suc n) (e ∷ es) = e ∷ resize n es

abbrev pub any_of : List Bool → Bool
any_of [] = false
any_of (e ∷ es) = e || any_of es

abbrev pub all_of : List Bool → Bool
all_of [] = true
all_of (e ∷ es) = e && all_of es

abbrev pub test_ended : WhenDone → List Bool → Bool
test_ended any es = any_of es
test_ended all es = all_of es

-- `action`, `done` and, at the end, `onEnd` of a child that has not ended.
abbrev pub turn_of : {W : Type 0} → Methods W → W → Bool × W
turn_of b w = let (d, v) = b.done (b.action w) in (d, if d then b.on_end v else v)

module _ {W : Type 0} (obj : ℕ → Methods W) where
  unfoldable pub start_all : List ℕ → W → W
  start_all [] w = w
  start_all (c ∷ cs) w = start_all cs ((obj c).on_start w)

  unfoldable pub on_start : Parallel × W → Parallel × W
  unfolding start_all
  on_start (p, w) =
      (record p { ended = replicate (length p.children) false }, start_all p.children w)

  -- The `for` over the children and `ended_`, which are of one length.
  unfoldable pub turns : List ℕ → List Bool → W → List Bool × W
  turns [] es w = (es, w)
  turns (c ∷ cs) [] w = ([], w)
  turns (c ∷ cs) (true ∷ es) w = let (es', u) = turns cs es w in (true ∷ es', u)
  turns (c ∷ cs) (false ∷ es) w =
      let (d, v) = turn_of (obj c) w in let (es', u) = turns cs es v in (d ∷ es', u)

  unfoldable pub action : Parallel × W → Parallel × W
  unfolding turns resize
  action (p, w) =
      let n = length p.children in
      let es = if length p.ended == n then p.ended else resize n p.ended in
      let (es', u) = turns p.children es w in (record p { ended = es' }, u)

  unfoldable pub done : Parallel × W → Bool × (Parallel × W)
  done (p, w) = (
    if is_empty p.children
        then true
        else (if length p.ended == length p.children
            then test_ended p.when_done p.ended
            else false),
    (p, w),
  )

  abbrev pub parallel_methods : Methods (Parallel × W)
  parallel_methods = record {
    on_start = on_start;
    action = action;
    done = done;
    on_end = λ x. x;
    exit_value = λ x. pos 0;
  }
