-- ===== src/Core/Lifecycle/Requests.antt =====
-- What becomes of a request to an agent, in src/core/Agent.cpp.
use g_agent.Base.{String, Bool, true, false, Option, if◌then◌else◌, int_key, ==_refl, ◌≡◌, refl}
use g_agent.Core.Lifecycle.{
  Action, unknown, active, suspended, waiting, waking, Control, at_loop, in_wait, woken, Process,
  act_locally, do_action, perform, control_turn,
}

-- The requests that only open or close the gate of the behaviours.
abbrev pub is_gate : Action → Bool
is_gate active = true
is_gate suspended = true
is_gate waiting = true
is_gate waking = true
is_gate _ = false

-- The gate after such a request.
abbrev pub opens : Action → Bool
opens active = true
opens waking = true
opens _ = false

-- The control thread is before its mutex and reads a status that it takes for one that needs nothing.
abbrev pub is_missed : Action → Control → Bool
is_missed active at_loop = true
is_missed _ _ = false

module _ (send : String → Option String) where
  -- The control thread alone waits after two turns at most, and then its turn changes nothing.
  abbrev pub settle : Process → Process
  settle p = control_turn send (control_turn send p)

  -- A request from the agent's own process to activate, suspend, wait or wake: two turns of the control
  -- thread later the gate of the behaviours is as requested, the request is taken, and the thread waits
  -- for the next one. The exception is a request to activate while the thread is before its mutex: the
  -- thread then waits with the request unread, and the gate is as before. Nothing else changes.
  pub settle-do_action :
      (p : Process) (a : Action)
      → is_gate a ≡ true
      → settle (do_action p.child a p) ≡ (
          if is_missed a p.control
          then record p { action_to_do = a; control = in_wait }
          else record p { action_to_do = unknown; running = opens a; control = in_wait })
  unfolding do_action control_turn perform act_locally
  settle-do_action p a h = rw (==_refl p.child) (by_place p.control a h)
    where
      by_place :
          (c : Control) (a : Action)
          → is_gate a ≡ true
          → settle (act_locally a (record p { control = c })) ≡ (
              if is_missed a c
              then record p { action_to_do = a; control = in_wait }
              else record p { action_to_do = unknown; running = opens a; control = in_wait })
      by_place at_loop active h = refl
      by_place in_wait active h = refl
      by_place woken active h = refl
      by_place at_loop suspended h = refl
      by_place in_wait suspended h = refl
      by_place woken suspended h = refl
      by_place at_loop waiting h = refl
      by_place in_wait waiting h = refl
      by_place woken waiting h = refl
      by_place at_loop waking h = refl
      by_place in_wait waking h = refl
      by_place woken waking h = refl
      by_place c _ h = cc
