-- ===== src/Core/Lifecycle.antt =====
-- The life cycle of src/core/Agent.cpp: `doAction`, `signal_handler`, `control_Thread`, and the gate of
-- `exthread`. A process is the state of one copy of the agent object: `init` forks, the parent keeps a
-- copy, and the child runs the threads. What the operating system and other programs are told is the
-- list of effects. A turn of `control_Thread` holds the mutex, so it is one step.
pub mod Requests
pub mod Suspension
use Prim.Native.String.{◌++◌}
use g_agent.Base.{
  ℕ, zero, suc, String, List, [], ◌∷◌, ◌++◌ as ◌then◌, Bool, true, false, ◌||◌, not, Option, none,
  some, if◌then◌else◌, ◌==◌, string_key, int_key, ℤ,
}
use g_agent.Env.Attributs.{Attributs}
use g_agent.Platform.Input.{to_string}
use g_agent.Platform.Clients.{is_ok}
use g_agent.Core.Migration.{arrive_line}

-- The statuses of Agent.hpp, 0 to 8.
pub data Action : Type 0 where
  unknown created inited active suspended transit waiting deleted waking : Action

pub data Signal : Type 0 where
  sig_delete sig_active sig_suspend sig_wake sig_wait sig_transit : Signal

-- Where `control_Thread` is: before its mutex, in `cv.wait`, or behind it after a notification.
pub data Control : Type 0 where
  at_loop in_wait woken : Control

pub data Effect : Type 0 where
  queued_signal : ℤ → Signal → Effect
  monitored deregistered removed_queue : String → Effect
  flushed exited : Effect

pub record Process : Type 0 where
  pub child : ℤ
  pub agent_name : String
  pub agent_id : String
  pub agent_type : String
  pub attributs : Attributs
  pub action_to_do : Action
  pub running : Bool
  pub control : Control
  pub effects : List Effect

abbrev pub with_effects : List Effect → Process → Process
with_effects es p = record p { effects = p.effects then es }

-- The name by which the agent is registered.
unfoldable pub registered_name : Process → String
registered_name p = if p.agent_name == "" then p.agent_id else p.agent_name

-- `substr(0, n)`
unfoldable pub front : ℕ → String → String
front zero s = ""
front (suc n) String.[] = ""
front (suc n) (String.◌∷◌ c s) = String.◌∷◌ c (front n s)

unfoldable pub get_msg_queue_name : Process → String
unfolding front
get_msg_queue_name p = "/" ++ front 8 p.agent_id

-- `cv.notify_all` reaches the control thread only where it waits.
abbrev pub notified : Control → Control
notified in_wait = woken
notified c = c

abbrev pub set_action : Action → Process → Process
set_action a p = record p { action_to_do = a; control = notified p.control }

-- `sendMsgMonitor` of the message that a deleted agent sends.
unfoldable pub stop_text : Process → String
stop_text p = p.agent_id ++ " -> Stop agent PID : " ++ to_string p.child

-- The branch of `doAction` in the child's own process. Unlinking a queue that is not there changes
-- nothing.
unfoldable pub act_locally : Action → Process → Process
unfolding registered_name get_msg_queue_name stop_text
act_locally active p = set_action active p
act_locally suspended p = set_action suspended p
act_locally transit p = set_action transit p
act_locally waiting p = set_action waiting p
act_locally waking p = set_action waking p
act_locally deleted p =
    with_effects
      (monitored (stop_text p)
        ∷ deregistered (registered_name p)
        ∷ removed_queue (get_msg_queue_name p)
        ∷ flushed
        ∷ exited
        ∷ [])
      p
act_locally _ p = p

abbrev pub signal_of : Action → Option Signal
signal_of active = some sig_active
signal_of suspended = some sig_suspend
signal_of transit = some sig_transit
signal_of waiting = some sig_wait
signal_of deleted = some sig_delete
signal_of waking = some sig_wake
signal_of _ = none

abbrev pub queue_signal : Option Signal → Process → Process
queue_signal none p = p
queue_signal (some s) p = with_effects (queued_signal p.child s ∷ []) p

-- `caller` is the result of `getpid`. The result of `doAction` is the field `action_to_do` after it.
unfoldable pub do_action : ℤ → Action → Process → Process
unfolding act_locally
do_action caller act p =
    if p.child == caller then act_locally act p else queue_signal (signal_of act) p

abbrev pub action_of : Signal → Action
action_of sig_delete = deleted
action_of sig_active = active
action_of sig_suspend = suspended
action_of sig_wake = waking
action_of sig_wait = waiting
action_of sig_transit = transit

-- The handler runs in the child.
unfoldable pub signal_handler : Signal → Process → Process
unfolding do_action
signal_handler s p = do_action p.child (action_of s) p

-- `action_to_do <= 3`
abbrev pub is_idle : Action → Bool
is_idle unknown = true
is_idle created = true
is_idle inited = true
is_idle active = true
is_idle _ = false

abbrev pub answer_ok : Option String → Bool
answer_ok none = false
answer_ok (some text) = is_ok text

-- `send` is the answer of the other machine to a message, or nothing if no connection is made.
module _ (send : String → Option String) where
  -- AGENT_TRANSIT: the agent leaves, or goes on here.
  unfoldable pub move : Process → Process
  unfolding registered_name arrive_line
  move p =
      if p.agent_type == ""
      then record p { running = true }
      else if answer_ok (send (arrive_line p.agent_type (registered_name p) p.attributs ++ "\n"))
      then with_effects (deregistered (registered_name p) ∷ flushed ∷ exited ∷ []) p
      else record p { running = true }

  -- The switch on the action.
  unfoldable pub perform : Action → Process → Process
  unfolding move
  perform active p = record p { running = true }
  perform suspended p = record p { running = false }
  perform transit p = move p
  perform waiting p = record p { running = false }
  perform waking p = record p { running = true }
  perform _ p = p

  abbrev pub handle : Process → Process
  handle p = record (perform p.action_to_do p) { action_to_do = unknown; control = at_loop }

  -- What the control thread does next, if it is not waiting.
  unfoldable pub control_turn_at : Control → Process → Process
  control_turn_at at_loop p =
      if is_idle p.action_to_do then record p { control = in_wait } else handle p
  control_turn_at in_wait p = p
  control_turn_at woken p = handle p

  unfoldable pub control_turn : Process → Process
  unfolding control_turn_at
  control_turn p = control_turn_at p.control p
