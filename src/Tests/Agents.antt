-- ===== src/Tests/Agents.antt =====
-- Runs of an agent: requests, signals and a migration.
use Prim.Native.String.{◌++◌}
use g_agent.Base.{
  ℕ, suc, ◌+◌, ◌*◌, ◌≤◌, true, String, List, [], ◌∷◌, false, Option, none, some, if◌then◌else◌,
  lookup, string_key, ◌≡◌, refl, pos,
}
use g_agent.Env.Attributs.{Attributs}
use g_agent.Core.Migration.{arrive_line, handle_migration}
use g_agent.Core.Migration.Journey.{seen, handle_migration-seen}
use g_agent.Core.Lifecycle.{
  unknown, active, suspended, sig_wait, in_wait, at_loop, Process, do_action, control_turn,
  signal_handler,
}
use g_agent.Core.Behaviour.{Methods, base_methods}
use g_agent.Core.Threads as Threads
use g_agent.Core.Threads.{made}
use g_agent.Core.Threads.Tallies.{no_calls, tally, result}
use g_agent.Core.Threads.Ending.{run-is_down}
use g_agent.Core.Lifecycle.Requests.{settle, is_missed, opens, settle-do_action}
use g_agent.Core.Lifecycle.Suspension.{
  Event, Gated, asks, signals, controls, begins, on_ask, on_signal, on_control, on_begin, Runs,
  stops, goes, starts, Runs-Held,
}

abbrev robot : Process
robot = record {
  child = pos 77;
  agent_name = "robot";
  agent_id = "0123456789";
  agent_type = "Walker";
  attributs = ("speed", "3") ∷ [];
  action_to_do = unknown;
  running = false;
  control = at_loop;
  effects = [];
}

abbrev nowhere : String → Option String
nowhere s = none

settle-do_action_example : settle nowhere (do_action (pos 77) active robot) ≡ (
    if is_missed active at_loop
    then record robot { action_to_do = active; control = in_wait }
    else record robot { action_to_do = unknown; running = opens active; control = in_wait })
settle-do_action_example = settle-do_action nowhere robot active refl

-- A request to wait, the action of a thread that had passed the gate, a turn of the control thread, and
-- a signal.
abbrev waits : List Event
waits = asks suspended ∷ begins ∷ controls ∷ signals sig_wait ∷ []

abbrev after_waits : Gated
after_waits = record {
  process = signal_handler sig_wait (control_turn nowhere (do_action (pos 77) suspended robot));
  passed = 0;
}

waits-Runs : Runs nowhere (record { process = robot; passed = 1 }) waits after_waits
waits-Runs =
    goes (on_ask suspended)
      (goes (on_begin 0 refl) (goes on_control (goes (on_signal sig_wait) stops)))

Runs-Held_example : (starts waits + 0 ≡ 1) × (after_waits.process.running ≡ false)
Runs-Held_example =
    Runs-Held nowhere {g = record { process = robot; passed = 1 }} {h = after_waits} waits
      waits-Runs (record { closed = refl; unasked = refl }) refl

-- A machine that knows the type.
abbrev walkers : String → Option Attributs
walkers type = some []

handle_migration-seen_example :
    seen "speed" (handle_migration walkers (arrive_line "Walker" "robot" robot.attributs ++ "\n"))
    ≡ some ("Walker", "robot", lookup "speed" robot.attributs)
handle_migration-seen_example =
    handle_migration-seen walkers "Walker" "robot" robot.attributs "speed" refl refl
      ((refl, refl), tt) ((refl, refl, refl), tt) (tt, tt) refl

-- Two one-shot behaviours that add to a counter, in threads that take turns.
abbrev adding : ℕ → Methods ℕ
adding k = record base_methods { action = λ n. n + 10; on_end = λ n. suc n }

abbrev turns : List Threads.Event
turns =
    Threads.starts 1
    ∷ Threads.starts 0
    ∷ Threads.gates true
    ∷ Threads.acts 0
    ∷ Threads.acts 1
    ∷ Threads.tests 1
    ∷ Threads.tests 0
    ∷ Threads.ends 1
    ∷ Threads.gates false
    ∷ Threads.ends 0
    ∷ Threads.takes_down
    ∷ []

abbrev at_the_end : Threads.Threads ℕ
at_the_end =
    result adding (λ n. n * 2) (made 2 false 0)
      (Threads.run adding (λ n. n * 2) turns (made 2 false 0))

run-is_down_example :
    let c = tally 1 turns no_calls in
    (c.started ≡ 1) × (c.acted ≡ c.tested) × (1 ≤ c.acted) × (c.ended ≡ 1)
unfolding Threads.run Threads.step Threads.all_over
run-is_down_example = run-is_down adding (λ n. n * 2) 2 false 0 turns at_the_end 1 refl refl refl
