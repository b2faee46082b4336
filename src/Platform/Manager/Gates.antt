-- ===== src/Platform/Manager/Gates.antt =====
-- What `cmd_suspend` and `cmd_wake` of platform/manager/Manager.cpp come to: the AMS, the control
-- server of platform/main.cpp and the threads of the agent in src/core/Agent.cpp together.
use mathlib.Core.Option
use g_agent.Base.{
  to_u16, ℕ, String, Bool, true, false, Option, some, ◌==◌, string_key, lookup-insert_self, length,
  leb, ◌≡◌, refl, ap, ◌∙◌, ℤ, pos, int_ltb,
}
use g_agent.Core.Lifecycle.{
  unknown, suspended, waking, Signal, sig_suspend, sig_wake, in_wait, Process, action_of,
  signal_handler,
}
use g_agent.Core.Lifecycle.Requests.{opens, settle, settle-do_action}
use g_agent.Platform.Input.Words.{is_one_word}
use g_agent.Platform.Ams as AmsPart
use g_agent.Platform.Ams.{AgentRecord, find_agent}
use g_agent.Platform.Ams.Server.{is_dead}
use g_agent.Platform.Clients.{Outcome, returns}
use g_agent.Platform.Clients.Ams.Remote.{set_state-remote}
use g_agent.Platform.Clients.Ams.Lookup.{Findable, live_one}
use g_agent.Platform.Clients.Ams.Slaves.{AllSlaves, slaves_of}
use g_agent.Platform.Manager.{Sending, sent, send_signal, then_state, cmd_suspend, cmd_wake}
use g_agent.Platform.Manager.Delivery.{
  Platform, queue_here, control_at, port_in, ams, is_sent, delivered, set_state-at_master,
  send_signal-delivered,
}

-- The operating system runs the handler of a signal in the process that it is sent to.
pub record Delivers {K : Type 0} (sigqueue : ℤ → Signal → K → Bool × K)
    (process : ℤ → K → Option Process) : Type 0 where
  pub handled :
      (pid : ℤ) (s : Signal) (k : K)
      → process pid (sigqueue pid s k).1 ≡ Option.map (signal_handler s) (process pid k)

-- The two signals that open or close the gate, and the state that the AMS is told.
abbrev is_gate_signal : Signal → Bool
is_gate_signal sig_suspend = true
is_gate_signal sig_wake = true
is_gate_signal _ = false

-- The process with its gate open or closed, and nothing to do.
abbrev pub settled : Bool → Process → Process
settled b p = record p { action_to_do = unknown; running = b; control = in_wait }

settle-signal_handler :
    (send : String → Option String) (s : Signal) (p : Process)
    → is_gate_signal s ≡ true
    → settle send (signal_handler s p) ≡ settled (opens (action_of s)) p
unfolding signal_handler
settle-signal_handler send sig_suspend p h = settle-do_action send p suspended refl
settle-signal_handler send sig_wake p h = settle-do_action send p waking refl
settle-signal_handler send _ p h = cc

module _ {K : Type 0} (sigqueue : ℤ → Signal → K → Bool × K) (process : ℤ → K → Option Process)
    (reaches : String → ℕ → Bool) (alive : ℤ → Bool) (now : ℕ) (peer_ip : String)
    (send : String → Option String) where
  -- The manager's report, the AMS's record and the agent's process once its control thread has had
  -- its turns.
  abbrev pub gate_after :
      String
      → ℤ
      → Outcome Sending × Platform K
      → Outcome Sending × Option AgentRecord × Option Process
  gate_after name pid (o, w) =
      (o, find_agent name w.master.ams, Option.map (settle send) (process pid w.away))

  sent_and_told :
      (name state : String) (s : Signal) (w : Platform K) (r : AgentRecord) (p : Process)
      → Delivers sigqueue process
      → is_gate_signal s ≡ true
      → is_sent s ≡ true
      → is_one_word name ≡ true
      → is_one_word state ≡ true
      → Findable name w.master
      → AllSlaves (slaves_of w.master.slave_registry)
      → leb (length (slaves_of w.master.slave_registry)) 2147483647 ≡ true
      → find_agent name w.master.ams ≡ some r
      → (r.slave_ip == "") ≡ false
      → reaches r.slave_ip (to_u16 (port_in r.slave_ip w.master.slave_registry)) ≡ true
      → int_ltb (pos 0) r.pid ≡ true
      → process r.pid w.away ≡ some p
      → ◌≡◌ {A = Outcome Sending × Option AgentRecord × Option Process}
          (gate_after name r.pid (
            then_state
              (ams sigqueue reaches alive now peer_ip)
              (ams sigqueue reaches alive now peer_ip)
              (control_at sigqueue reaches)
              (queue_here sigqueue)
              name
              state
              (send_signal
                (ams sigqueue reaches alive now peer_ip)
                (ams sigqueue reaches alive now peer_ip)
                (control_at sigqueue reaches)
                (queue_here sigqueue)
                name
                s
                w)))
          (returns sent, some (record r { state = state }), some (settled (opens (action_of s)) p))
  sent_and_told name state s w r p d g k n st f h c e remote near positive run =
      let server = ams sigqueue reaches alive now peer_ip in
      let w1 : Platform K = record w { away = (sigqueue r.pid s w.away).1 } in
      ap
        (λ o. gate_after name r.pid (
          then_state server server (control_at sigqueue reaches) (queue_here sigqueue) name state
            o))
        (send_signal-delivered sigqueue reaches alive now peer_ip name s w k n f h c
          ∙ ap
              (λ o.
                delivered sigqueue reaches alive now peer_ip s (live_one alive name o w.master) w)
              e
          ∙ arrived)
      ∙ ap (λ q. gate_after name r.pid (returns sent, q.1))
          (set_state-at_master sigqueue reaches alive now peer_ip name state w1
            ∙ ap (λ q. (q.0, record w1 { master = q.1 }))
                (set_state-remote alive now peer_ip name state w.master n st))
      ∙ ap (λ o. (returns sent, o, Option.map (settle send) (process r.pid w1.away)))
          (registered w.master.ams e)
      ∙ ap (λ o. (returns sent, some (record r { state = state }), Option.map (settle send) o))
          (d.handled r.pid s w.away)
      ∙ ap
          (λ o. (
            returns sent,
            some (record r { state = state }),
            Option.map (settle send) (Option.map (signal_handler s) o),
          ))
          run
      ∙ ap (λ q. (returns sent, some (record r { state = state }), some q))
          (settle-signal_handler send s p g)
    where
      live : is_dead alive r ≡ false
      live = unfold is_dead in rw remote refl

      arrived :
          delivered sigqueue reaches alive now peer_ip s (live_one alive name (some r) w.master) w
          ≡ (returns sent, record w { away = (sigqueue r.pid s w.away).1 })
      arrived = rw live (rw remote (rw (near, positive) refl))

      registered :
          (a : AmsPart.Ams)
          → find_agent name a ≡ some r
          → find_agent name (AmsPart.set_state name state a).1 ≡ some (record r { state = state })
      registered a e =
          unfold find_agent AmsPart.set_state in
          rw e (lookup-insert_self name (record r { state = state }) a.registry)

  -- An agent of a slave whose control server is reached, with a positive pid and a process there: after
  -- `cmd_suspend` the signal is sent, the AMS has the agent as suspended, and two turns of the control
  -- thread later the agent's gate is closed; after `cmd_wake` the AMS has it as active and its gate is
  -- open. The rest of the record and of the process is as before. The name is a word, what is
  -- registered under it is named so and can be taken apart by a reader; the slaves' addresses are
  -- words, their ports 32-bit numbers, and their count is below 2^31; a signal that is sent runs its
  -- handler in the process.
  pub cmd_suspend-cmd_wake :
      (name : String) (w : Platform K) (r : AgentRecord) (p : Process)
      → Delivers sigqueue process
      → is_one_word name ≡ true
      → Findable name w.master
      → AllSlaves (slaves_of w.master.slave_registry)
      → leb (length (slaves_of w.master.slave_registry)) 2147483647 ≡ true
      → find_agent name w.master.ams ≡ some r
      → (r.slave_ip == "") ≡ false
      → reaches r.slave_ip (to_u16 (port_in r.slave_ip w.master.slave_registry)) ≡ true
      → int_ltb (pos 0) r.pid ≡ true
      → process r.pid w.away ≡ some p
      → let server = ams sigqueue reaches alive now peer_ip in
        (◌≡◌ {A = Outcome Sending × Option AgentRecord × Option Process}
          (gate_after name r.pid
            (cmd_suspend server server (control_at sigqueue reaches) (queue_here sigqueue) name w))
          (returns sent, some (record r { state = "suspended" }), some (settled false p)))
        × (◌≡◌ {A = Outcome Sending × Option AgentRecord × Option Process}
            (gate_after name r.pid
              (cmd_wake server server (control_at sigqueue reaches) (queue_here sigqueue) name w))
            (returns sent, some (record r { state = "active" }), some (settled true p)))
  unfolding cmd_suspend cmd_wake
  cmd_suspend-cmd_wake name w r p d n f h c e remote near positive run = (
    sent_and_told name "suspended" sig_suspend w r p d refl refl n refl f h c e remote near positive
        run,
    sent_and_told name "active" sig_wake w r p d refl refl n refl f h c e remote near positive run,
  )
