-- ===== src/Core/Lifecycle/Suspension.antt =====
-- The runs of an agent of src/core/Agent.cpp: the threads of its process and the requests from outside,
-- in any order.
use g_agent.Base.{
  ℕ, suc, ◌+◌, arith, String, List, [], ◌∷◌, Bool, true, false, ◌&&◌, not, Option, int_key, ==_refl,
  both_true, ◌≡◌, refl, sym, ◌∙◌, Bool-cases, inl, inr,
}
use g_agent.Core.Lifecycle.{
  Action, active, suspended, transit, waiting, deleted, waking, Signal, Control, at_loop, in_wait,
  woken, Process, do_action, act_locally, is_idle, perform, control_turn, control_turn_at, handle,
  action_of, signal_handler,
}

-- A request in the process, a signal from another, a turn of `control_Thread`, a wakeup of it without
-- a notification, a thread that passes the gate, and the start of an action of a behaviour.
pub data Event : Type 0 where
  asks : Action → Event
  signals : Signal → Event
  controls wakes passes begins : Event

-- The process with the count of the threads that have passed the gate and not started their action:
-- `exthread` gives the mutex of the gate back before it calls `action`.
pub record Gated : Type 0 where
  pub process : Process
  pub passed : ℕ

module _ (send : String → Option String) where
  pub data Step (g : Gated) : Event → Gated → Type 0 where
    on_ask :
        (a : Action)
        → Step g (asks a) (record g { process = do_action g.process.child a g.process })
    on_signal :
        (s : Signal) → Step g (signals s) (record g { process = signal_handler s g.process })
    on_control : Step g controls (record g { process = control_turn send g.process })
    on_wake :
        g.process.control ≡ in_wait
        → Step g wakes (record g { process = record (g.process) { control = woken } })
    on_pass : g.process.running ≡ true → Step g passes (record g { passed = suc g.passed })
    on_begin : (k : ℕ) → g.passed ≡ suc k → Step g begins (record g { passed = k })

  pub data Runs : Gated → List Event → Gated → Type 0 where
    stops : {g : Gated} → Runs g [] g
    goes :
        {g h k : Gated} {e : Event} {es : List Event} → Step g e h → Runs h es k → Runs g (e ∷ es) k

abbrev pub resumes : Action → Bool
resumes active = true
resumes waking = true
resumes transit = true
resumes _ = false

-- Nobody asks the agent to go on or to move.
abbrev pub is_quiet : Event → Bool
is_quiet (asks a) = not (resumes a)
is_quiet (signals s) = not (resumes (action_of s))
is_quiet _ = true

abbrev pub all_quiet : List Event → Bool
all_quiet [] = true
all_quiet (e ∷ es) = is_quiet e && all_quiet es

abbrev pub starts_of : Event → ℕ
starts_of begins = 1
starts_of _ = 0

-- The count of the actions that are started.
abbrev pub starts : List Event → ℕ
starts [] = 0
starts (e ∷ es) = starts_of e + starts es

-- The gate is closed, and no request that would open it is unread.
pub record Held (p : Process) : Type 0 where
  pub closed : p.running ≡ false
  pub unasked : resumes p.action_to_do ≡ false

act_locally-Held :
    (a : Action) (p : Process) → not (resumes a) ≡ true → Held p → Held (act_locally a p)
unfolding act_locally
act_locally-Held suspended p q h = record { closed = h.closed; unasked = refl }
act_locally-Held waiting p q h = record { closed = h.closed; unasked = refl }
act_locally-Held active p q h = cc
act_locally-Held waking p q h = cc
act_locally-Held transit p q h = cc
act_locally-Held deleted p q h = record { closed = h.closed; unasked = h.unasked }
act_locally-Held _ p q h = h

do_action-Held :
    (a : Action) (p : Process) → not (resumes a) ≡ true → Held p → Held (do_action p.child a p)
unfolding do_action
do_action-Held a p q h = rw (==_refl p.child) (act_locally-Held a p q h)

module _ (send : String → Option String) where
  perform-closed :
      (a : Action) (p : Process)
      → resumes a ≡ false
      → p.running ≡ false
      → (perform send a p).running ≡ false
  unfolding perform
  perform-closed suspended p q h = refl
  perform-closed waiting p q h = refl
  perform-closed active p q h = cc
  perform-closed waking p q h = cc
  perform-closed transit p q h = cc
  perform-closed _ p q h = h

  handle-Held : (p : Process) → Held p → Held (handle send p)
  handle-Held p h = record {
    closed = perform-closed p.action_to_do p h.unasked h.closed;
    unasked = refl;
  }

  control_turn_at-Held : (c : Control) (p : Process) → Held p → Held (control_turn_at send c p)
  unfolding control_turn_at
  control_turn_at-Held in_wait p h = h
  control_turn_at-Held woken p h = handle-Held p h
  control_turn_at-Held at_loop p h = elim (Bool-cases (is_idle p.action_to_do)) [
    | inl e ↦ rw e (record { closed = h.closed; unasked = h.unasked })
    | inr e ↦ rw e (handle-Held p h)
  ]

  Step-Held :
      {g h : Gated} {e : Event}
      → Step send g e h
      → is_quiet e ≡ true
      → Held g.process
      → (starts_of e + h.passed ≡ g.passed) × Held h.process
  unfolding signal_handler control_turn
  Step-Held {g} (on_ask a) k h = (omega arith, do_action-Held a g.process k h)
  Step-Held {g} (on_signal s) k h = (omega arith, do_action-Held (action_of s) g.process k h)
  Step-Held {g} on_control k h = (omega arith, control_turn_at-Held g.process.control g.process h)
  Step-Held (on_wake e) k h = (omega arith, record { closed = h.closed; unasked = h.unasked })
  Step-Held (on_begin n e) k h = (omega (arith, e), h)
  Step-Held (on_pass e) k h = absurd (true-false (sym e ∙ h.closed))
    where
      true-false : true ≡ false → ⊥
      true-false h = cc

  -- A suspended agent starts nothing new: in a run, of any length and in any order, from a process
  -- whose gate is closed with no request unread that would open it, the only actions that start are
  -- those of the threads that had passed the gate before, one for each, as long as nobody asks the
  -- agent to become active, to wake or to move; and the gate stays closed.
  pub Runs-Held :
      {g h : Gated} (es : List Event)
      → Runs send g es h
      → Held g.process
      → all_quiet es ≡ true
      → (starts es + h.passed ≡ g.passed) × (h.process.running ≡ false)
  Runs-Held es stops h k = (omega arith, h.closed)
  Runs-Held (e ∷ es) (goes s r) h k =
      let (first, rest) = both_true (is_quiet e) (all_quiet es) k in
      let (now, held) = Step-Held s first h in
      let (later, closed) = Runs-Held es r held rest in (omega (arith, now, later), closed)
