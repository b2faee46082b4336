-- ===== src/Core/Threads.antt =====
-- `Agent::_init` of src/core/Agent.cpp: an agent registers, runs one thread for each behaviour of its
-- list, and when all of them have ended it is taken down. A step of a thread is the call of one
-- virtual method; threads step in any order. The gate is `runingThred`.
pub mod Tallies
pub mod Ending
use g_agent.Base.{
  ℕ, zero, suc, String, List, [], ◌∷◌, ◌++◌, Bool, true, false, ◌&&◌, not, Option, none, some,
  if◌then◌else◌, ltb, ◌==◌, nat_key, string_key,
}
use g_agent.Platform.Config.{Config}
use g_agent.Platform.Clients.{Server}
use g_agent.Platform.Clients.Ams.{register_agent}
use g_agent.Core.Behaviour.{Methods}
use g_agent.Core.Lifecycle.{Action, inited, active, Process, registered_name, get_msg_queue_name}

-- A behaviour is a pointer.
abbrev pub add_behaviour : ℕ → List ℕ → List ℕ
add_behaviour b l = l ++ b ∷ []

unfoldable pub remove_behaviour : ℕ → List ℕ → List ℕ
remove_behaviour b [] = []
remove_behaviour b (c ∷ l) = let rest = remove_behaviour b l in if c == b then l else c ∷ rest

abbrev status_after : {S : Type 0} → Bool × S → Action × S
status_after (ok, s) = (if ok then active else inited, s)

-- The registration of a new agent with the AMS, and the status after it.
unfoldable pub register_self : {S : Type 0} → Server S → Config → Process → S → Action × S
register_self server cfg p s =
    status_after (register_agent server cfg (registered_name p) p.child (get_msg_queue_name p) s)

-- Where a thread is in `exthread`: before `onStart`, at the gate before `action`, before `done`,
-- before `onEnd`, or at its end.
pub data Place : Type 0 where
  to_start at_gate to_test to_end over : Place

abbrev pub is_over : Place → Bool
is_over over = true
is_over _ = false

-- A call by the thread of a number, a change of the gate, and the end of the main thread's joins.
pub data Event : Type 0 where
  starts acts tests ends : ℕ → Event
  gates : Bool → Event
  takes_down : Event

-- The threads from 0 on; `is_down` once `takeDown` and `doDelete` are called.
pub record Threads (W : Type 0) : Type 0 where
  pub count : ℕ
  pub places : ℕ → Place
  pub running : Bool
  pub is_down : Bool
  pub world : W

abbrev pub move_to : ℕ → Place → (ℕ → Place) → ℕ → Place
move_to k p places i = if i == k then p else places i

-- The joins of all threads have returned.
unfoldable pub all_over : ℕ → (ℕ → Place) → Bool
all_over zero places = true
all_over (suc n) places = is_over (places n) && all_over n places

module _ {W : Type 0} (beh : ℕ → Methods W) (take_down : W → W) where
  abbrev pub after_test : ℕ → Bool × W → Threads W → Threads W
  after_test k (d, w) t = record t {
    places = move_to k (if d then to_end else at_gate) t.places;
    world = w;
  }

  -- What an event does to a thread at its place; nothing where it cannot happen there.
  abbrev pub step_at : Event → Place → Threads W → Option (Threads W)
  step_at (starts k) to_start t =
      some (record t { places = move_to k at_gate t.places; world = (beh k).on_start t.world })
  step_at (acts k) at_gate t =
      if t.running
      then some (record t { places = move_to k to_test t.places; world = (beh k).action t.world })
      else none
  step_at (tests k) to_test t = some (after_test k ((beh k).done t.world) t)
  step_at (ends k) to_end t =
      some (record t { places = move_to k over t.places; world = (beh k).on_end t.world })
  step_at e p t = none

  unfoldable pub step : Event → Threads W → Option (Threads W)
  unfolding all_over
  step (gates b) t = some (record t { running = b })
  step takes_down t =
      if not t.is_down && all_over t.count t.places
      then some (record t { is_down = true; world = take_down t.world })
      else none
  step (starts k) t = if ltb k t.count then step_at (starts k) (t.places k) t else none
  step (acts k) t = if ltb k t.count then step_at (acts k) (t.places k) t else none
  step (tests k) t = if ltb k t.count then step_at (tests k) (t.places k) t else none
  step (ends k) t = if ltb k t.count then step_at (ends k) (t.places k) t else none

  abbrev pub then_run : (Threads W → Option (Threads W)) → Option (Threads W) → Option (Threads W)
  then_run f none = none
  then_run f (some t) = f t

  unfoldable pub run : List Event → Threads W → Option (Threads W)
  run [] t = some t
  run (e ∷ es) t = then_run (run es) (step e t)

-- The threads as they are made.
abbrev pub made : {W : Type 0} → ℕ → Bool → W → Threads W
made n running w = record {
  count = n;
  places = λ k. to_start;
  running = running;
  is_down = false;
  world = w;
}
