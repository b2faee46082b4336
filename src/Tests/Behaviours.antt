-- ===== src/Tests/Behaviours.antt =====
-- Concrete behaviours: an object at the pointer `p` adds `p` to the world and ends.
use mathlib.Core.Option
use g_agent.Base.{
  ℕ, suc, ◌+◌, ◌*◌, ◌≤◌, ◌<◌, String, [], ◌∷◌, Bool, true, false, some, ◌≡◌, refl, arith, pos, map,
  string_key, lookup,
}
use g_agent.Core.Behaviour.{Methods, last, Runs, ran}
use g_agent.Core.Timers.{Timed, one_shot_methods, waker_methods}
use g_agent.Core.Timers.Waking.{waker-Runs}
use g_agent.Core.Sequential.{Sequential, sequential_methods}
use g_agent.Core.Sequential.Order.{RunsEach, none_left, one_more, Runs-sequential}
use g_agent.Core.Parallel as Par
use g_agent.Core.Parallel.{Parallel, all, any, test_ended}
use g_agent.Core.Parallel.Apart.{Cells, in_cell, IsApart, view}
use g_agent.Core.Parallel.Done.{is_enough, count_set, rounds, alone, rounds_lem}
use g_agent.Core.Fsm.{StateEntry, Fsm, fsm_methods, next_state}
use g_agent.Core.Fsm.Walk.{by_value, Walk, at_last, moves, Runs-fsm, nameless_never_ends}

abbrev adds : ℕ → Methods ℕ
adds p = one_shot_methods (λ w. w + p)

abbrev ticks : ℕ → ℕ
ticks k = k * 1000

ticks_rise : (k : ℕ) → ticks k < ticks (suc k)
ticks_rise k = omega arith

abbrev started : Timed ℕ
started = record { app = 0; reads = 0 }

waker-Runs_example :
    (u : Timed ℕ) × Runs (waker_methods ticks suc suc) (3, started) (0, u)
    × (u.app ≡ suc started.app)
    × (ticks started.reads + 3 * 1_000_000 ≤ ticks u.reads)
waker-Runs_example = waker-Runs ticks suc suc ticks_rise 3 started

abbrev two_steps : Sequential
two_steps = record { composite = record { this_agent = 0; children = 2 ∷ 3 ∷ [] }; current = 0 }

two_steps_run : RunsEach adds (2 ∷ 3 ∷ []) 1 6
two_steps_run = one_more (ran (last refl)) (one_more (ran (last refl)) none_left)

Runs-sequential_example :
    Runs (sequential_methods adds) (two_steps, 1) (record two_steps { current = 2 }, 6)
Runs-sequential_example = Runs-sequential adds two_steps {w = 1} {u = 6} two_steps_run

abbrev two_at_once : Parallel
two_at_once = record {
  composite = record { this_agent = 0; children = 2 ∷ 3 ∷ [] };
  when_done = all;
  ended = [];
}

abbrev tens : Cells ℕ
tens q = 10

two_at_once-IsApart : IsApart adds (2 ∷ 3 ∷ [])
two_at_once-IsApart = ((refl, tt), (tt, tt))

rounds_lem_example :
    let x = rounds (in_cell adds) 2 (Par.on_start (in_cell adds) (two_at_once, tens)) in
    (view adds (2 ∷ 3 ∷ []) x.0.ended x.1 ≡ map (λ c. alone adds c 2 (tens c)) (2 ∷ 3 ∷ []))
    × ((Par.done (in_cell adds) x).0
        ≡ is_enough all (count_set (map (λ c. (alone adds c 2 (tens c)).0) (2 ∷ 3 ∷ []))) 2)
rounds_lem_example = rounds_lem adds two_at_once tens two_at_once-IsApart 2 refl

abbrev entry : ℕ → Bool → StateEntry
entry b final = record { beh = b; is_last = final }

abbrev machine : String → Fsm
machine first = record {
  this_agent = 0;
  states = ("begin", entry 1 false) ∷ ("end", entry 2 true) ∷ [];
  transitions = ("begin", (pos 0, "end") ∷ []) ∷ [];
  default_transitions = [];
  first_state = first;
  current_state = "";
  finished = false;
}

machine-Walk : Walk adds (machine "begin") "begin" 4 "end" 7
unfolding lookup next_state Option.bind
machine-Walk =
    moves {name = "begin"} (entry 1 false) (entry 2 true) "end" refl (last refl) refl
      (by_value ((pos 0, "end") ∷ []) "end" refl refl refl) refl refl
      (at_last (entry 2 true) refl (last refl) refl)

begin_here : lookup "begin" (machine "begin").states ≡ some (entry 1 false)
unfolding lookup
begin_here = refl

Runs-fsm_example :
    Runs
      (fsm_methods adds)
      (machine "begin", 4)
      (record (machine "begin") { current_state = "end"; finished = true }, 7)
Runs-fsm_example =
    Runs-fsm adds (machine "begin") {to = "end"} {w = 4} {u = 7} (entry 1 false) refl begin_here
      machine-Walk

nameless_never_ends_example : ¬ Runs (fsm_methods adds) (machine "", 4) (machine "", 4)
nameless_never_ends_example =
    nameless_never_ends adds (machine "") {w = 4} {y = (machine "", 4)} refl
