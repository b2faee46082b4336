-- ===== src/Platform/Manager/Delivery.antt =====
-- The signals of platform/manager/Manager.cpp on a platform: the manager runs beside the AMS of
-- platform/ams/AMS.cpp, and a control server of platform/main.cpp runs on the machine of a slave.
use Prim.Native.String.{◌++◌}
use g_agent.Base.{
  to_u16, ℕ, String, [], ◌∷◌, arith, Bool, true, false, ◌&&◌, not, Option, none, some,
  if◌then◌else◌, ◌==◌, string_key, Map, lookup, map, length, leb, ◌≡◌, refl, ap, ◌∙◌, Bool-cases,
  inl, inr, ℤ, pos, int_ltb, eq_iff,
}
use g_agent.Core.Lifecycle.{Signal, sig_delete, sig_suspend, sig_wake}
use g_agent.Platform.Input.{to_string}
use g_agent.Platform.Input.Words.{is_one_word, read_word-command}
use g_agent.Platform.Input.Numbers.{is_int, read_int-last}
use g_agent.Platform.Slaves.{SlaveInfo, SlaveRegistry, slave_list}
use g_agent.Platform.Ams.{AgentRecord, find_agent}
use g_agent.Platform.Ams.Server.{Master, is_dead}
use g_agent.Platform.Control.{answer_control, control_signal, handle_control, control}
use g_agent.Platform.Clients.{
  Server, read_line, first_line, is_ok, request, Outcome, returns, answered,
}
use g_agent.Platform.Clients.Lines.{
  OneLine, OneLine-append, word-OneLine, to_string-OneLine, read_line-append,
}
use g_agent.Platform.Clients.Ams.{lookup_agent, set_state, list_slaves}
use g_agent.Platform.Clients.Ams.Session.{serve, info_of}
use g_agent.Platform.Clients.Ams.Lookup.{
  Findable, live_one, find_live, infos_found, lookup_agent-find_live,
}
use g_agent.Platform.Clients.Ams.Slaves.{AllSlaves, slaves_of, list_slaves-remote}
use g_agent.Platform.Manager.{
  Sending, sent, no_agent, no_control, control_port, command_name, controlled, queued,
  send_remote_signal, send_named, send_away, send_to, send_signal,
}

-- The AMS, the processes of its machine, and those of the machine of a slave.
pub record Platform (K : Type 0) : Type 0 where
  pub master : Master
  pub here : K
  pub away : K

module _ {K : Type 0} where
  abbrev pub at_master : Option (String × Master) → Platform K → Option (String × Platform K)
  at_master none w = none
  at_master (some (text, m)) w = some (text, record w { master = m })

  abbrev pub at_away : Option (String × K) → Platform K → Option (String × Platform K)
  at_away none w = none
  at_away (some (text, k)) w = some (text, record w { away = k })

  -- The connections to the AMS.
  unfoldable pub ams_of : Server Master → Server (Platform K)
  ams_of server text w = at_master (server text w.master) w

  module _ (sigqueue : ℤ → Signal → K → Bool × K) where
    abbrev pub queue_here : ℤ → Signal → Platform K → Bool × Platform K
    queue_here pid s w = let (ok, k) = sigqueue pid s w.here in (ok, record w { here = k })

    -- A connection to a control server: made where `reaches` says so.
    unfoldable pub control_at : (String → ℕ → Bool) → String → ℕ → Server (Platform K)
    control_at reaches ip port text w =
        if reaches ip port then at_away (control sigqueue text w.away) w else none

-- The port that the registry of slaves has for an address.
abbrev pub port_in : String → Option SlaveRegistry → ℤ
port_in ip none = pos 40015
port_in ip (some r) = elim (lookup ip r.slaves) [ none ↦ pos 40015 | some info ↦ info.control_port ]

pub control_port-slaves_of :
    (ip : String) (o : Option SlaveRegistry) → control_port ip (slaves_of o) ≡ port_in ip o
unfolding control_port slave_list lookup
control_port-slaves_of ip none = refl
control_port-slaves_of ip (some r) = go r.slaves
  where
    go :
        (l : Map String SlaveInfo)
        → control_port ip (map (λ e. (e.0, e.1.control_port)) l)
          ≡ elim (lookup ip l) [ none ↦ pos 40015 | some info ↦ info.control_port ]
    go [] = refl
    go ((k, info) ∷ l) = ground (arith, eq_iff k ip, eq_iff ip k, go l)

-- The signals that the manager sends.
abbrev pub is_sent : Signal → Bool
is_sent sig_delete = true
is_sent sig_suspend = true
is_sent sig_wake = true
is_sent _ = false

module _ {K : Type 0} (sigqueue : ℤ → Signal → K → Bool × K) (reaches : String → ℕ → Bool)
    (alive : ℤ → Bool) (now : ℕ) (peer_ip : String) where
  abbrev pub ams : Server (Platform K)
  ams = ams_of (serve alive now peer_ip)

  -- What a signal to an agent of a slave comes to.
  abbrev pub delivered_away : Signal → AgentRecord → Platform K → Outcome Sending × Platform K
  delivered_away s r w =
      let port = port_in r.slave_ip w.master.slave_registry in
      if reaches r.slave_ip (to_u16 port) && int_ltb (pos 0) r.pid
      then (returns sent, record w { away = (sigqueue r.pid s w.away).1 })
      else (returns (no_control r.slave_ip port), w)

  abbrev pub delivered :
      Signal → Option AgentRecord × Master → Platform K → Outcome Sending × Platform K
  delivered s (none, m) w = (returns no_agent, record w { master = m })
  delivered s (some r, m) w =
      if not (r.slave_ip == "")
      then delivered_away s r (record w { master = m })
      else queued (queue_here sigqueue r.pid s (record w { master = m }))

  request-at_master :
      (cmd : String) (w : Platform K)
      → request ams cmd w ≡ (
          let (line, m) = request (serve alive now peer_ip) cmd w.master in
          (line, record w { master = m }))
  unfolding request ams_of serve
  request-at_master cmd w = refl

  pub lookup_agent-at_master :
      (name : String) (w : Platform K)
      → lookup_agent ams name w ≡ (
          let (o, m) = lookup_agent (serve alive now peer_ip) name w.master in
          (o, record w { master = m }))
  unfolding lookup_agent request ams_of serve
  lookup_agent-at_master name w = refl

  pub set_state-at_master :
      (name state : String) (w : Platform K)
      → set_state ams name state w ≡ (
          let (o, m) = set_state (serve alive now peer_ip) name state w.master in
          (o, record w { master = m }))
  unfolding set_state request ams_of serve
  set_state-at_master name state w = refl

  list_slaves-at_master :
      (w : Platform K)
      → list_slaves ams w ≡ (
          let (o, m) = list_slaves (serve alive now peer_ip) w.master in
          (o, record w { master = m }))
  unfolding list_slaves ams_of serve
  list_slaves-at_master w = refl

  -- A control server that is reached gets the signal's command and the pid.
  handle_control-named :
      (s : Signal) (cmd : String) (pid : ℤ) (k : K)
      → is_one_word cmd ≡ true
      → control_signal cmd ≡ some s
      → is_int pid ≡ true
      → handle_control sigqueue ((cmd ++ " ") ++ to_string pid) k
        ≡ answer_control sigqueue (some s) pid k
  unfolding handle_control
  handle_control-named s cmd pid k h e p =
      rw (read_word-command cmd (to_string pid) "" h)
        (rw (read_int-last pid (pos 0) p) (ap (λ o. answer_control sigqueue o pid k) e))

  control-named :
      (s : Signal) (cmd : String) (pid : ℤ) (k : K)
      → is_one_word cmd ≡ true
      → control_signal cmd ≡ some s
      → is_int pid ≡ true
      → control sigqueue (((cmd ++ " ") ++ to_string pid) ++ "\n") k
        ≡ some (answer_control sigqueue (some s) pid k)
  control-named s cmd pid k h e p =
      let line : OneLine ((cmd ++ " ") ++ to_string pid) =
        OneLine-append (OneLine-append (word-OneLine cmd h) (record { no_break = refl }))
          (to_string-OneLine pid) in
      served ((cmd ++ " ") ++ to_string pid) line
      ∙ ap (λ a. some a) (handle_control-named s cmd pid k h e p)
    where
      served :
          (line : String)
          → OneLine line
          → control sigqueue (line ++ "\n") k ≡ some (handle_control sigqueue line k)
      served line h =
          unfold control in
          ap (λ q. some (handle_control sigqueue q.0 k)) (read_line-append line "" h)

  send_remote_signal-named :
      (s : Signal) (cmd ip : String) (port pid : ℤ) (w : Platform K)
      → is_one_word cmd ≡ true
      → control_signal cmd ≡ some s
      → is_int pid ≡ true
      → send_remote_signal ams ams
          (control_at sigqueue reaches)
          (queue_here sigqueue)
          ip
          port
          pid
          cmd
          w
        ≡ (if reaches ip (to_u16 port) && int_ltb (pos 0) pid
            then (true, record w { away = (sigqueue pid s w.away).1 })
            else (false, w))
  unfolding send_remote_signal request control_at is_ok
  send_remote_signal-named s cmd ip port pid w h e p =
      elim (Bool-cases (reaches ip (to_u16 port))) [
        | inr far ↦ rw far refl
        | inl near ↦ rw near (
            ap (λ o. answered (first_line (at_away o w) w)) (control-named s cmd pid w.away h e p)
            ∙ answer (int_ltb (pos 0) pid) refl)
      ]
    where
      answer :
          (b : Bool)
          → int_ltb (pos 0) pid ≡ b
          → answered (first_line (at_away (some (answer_control sigqueue (some s) pid w.away)) w) w)
            ≡ (if b then (true, record w { away = (sigqueue pid s w.away).1 }) else (false, w))
      answer true e = unfold read_line is_ok in rw e refl
      answer false e = unfold read_line is_ok in rw e refl

  send_away-delivered :
      (s : Signal) (r : AgentRecord) (w : Platform K)
      → is_sent s ≡ true
      → is_int r.pid ≡ true
      → AllSlaves (slaves_of w.master.slave_registry)
      → leb (length (slaves_of w.master.slave_registry)) 2147483647 ≡ true
      → send_away ams ams
          (control_at sigqueue reaches)
          (queue_here sigqueue)
          (info_of r)
          s
          (list_slaves ams w)
        ≡ delivered_away s r w
  send_away-delivered s r w k p h c =
      ap (send_away ams ams (control_at sigqueue reaches) (queue_here sigqueue) (info_of r) s) (
        list_slaves-at_master w
        ∙ ap (λ q. (q.0, record w { master = q.1 }))
            (list_slaves-remote alive now peer_ip w.master h c))
      ∙ ap
          (λ port.
            send_named ams ams (control_at sigqueue reaches) (queue_here sigqueue) (info_of r) port
              (command_name s) w)
          (control_port-slaves_of r.slave_ip w.master.slave_registry)
      ∙ by_signal s k
    where
      port : ℤ
      port = port_in r.slave_ip w.master.slave_registry

      named :
          (s : Signal) (cmd : String)
          → is_one_word cmd ≡ true
          → control_signal cmd ≡ some s
          → send_named ams ams
              (control_at sigqueue reaches)
              (queue_here sigqueue)
              (info_of r)
              port
              (some cmd)
              w
            ≡ delivered_away s r w
      named s cmd h e =
          ap (controlled r.slave_ip port)
            (send_remote_signal-named s cmd r.slave_ip port r.pid w h e p)
          ∙ answer (reaches r.slave_ip (to_u16 port) && int_ltb (pos 0) r.pid)
        where
          answer :
              (b : Bool)
              → controlled r.slave_ip port (
                  if b then (true, record w { away = (sigqueue r.pid s w.away).1 }) else (false, w))
                ≡ (if b
                    then (returns sent, record w { away = (sigqueue r.pid s w.away).1 })
                    else (returns (no_control r.slave_ip port), w))
          answer true = refl
          answer false = refl

      by_signal :
          (s : Signal)
          → is_sent s ≡ true
          → send_named ams ams
              (control_at sigqueue reaches)
              (queue_here sigqueue)
              (info_of r)
              port
              (command_name s)
              w
            ≡ delivered_away s r w
      by_signal sig_delete k =
          unfold command_name in named sig_delete "KILL" refl (unfold control_signal in refl)
      by_signal sig_suspend k =
          unfold command_name in named sig_suspend "SUSPEND" refl (unfold control_signal in refl)
      by_signal sig_wake k =
          unfold command_name in named sig_wake "WAKE" refl (unfold control_signal in refl)
      by_signal _ k = cc

  -- A signal that the manager sends by an agent's name goes where the registry says. No live agent of
  -- that name: the manager says so, and nothing happens but that a local agent whose process is gone
  -- leaves the registry. A local agent: its process is sent the signal on this machine, and a failure
  -- is reported. An agent of a slave: the control server at the slave's address, and at the port that
  -- the slave registered or 40015, sends the signal to the pid there, if it is reached and the pid is
  -- positive; otherwise the manager reports the address and the port, and nothing happens. The signal
  -- is to delete, suspend or wake; the name is a word, what is registered under it is named so and can
  -- be taken apart by a reader; the slaves' addresses are words, their ports 32-bit numbers, and their
  -- count is below 2^31.
  pub send_signal-delivered :
      (name : String) (s : Signal) (w : Platform K)
      → is_sent s ≡ true
      → is_one_word name ≡ true
      → Findable name w.master
      → AllSlaves (slaves_of w.master.slave_registry)
      → leb (length (slaves_of w.master.slave_registry)) 2147483647 ≡ true
      → send_signal ams ams (control_at sigqueue reaches) (queue_here sigqueue) name s w
        ≡ delivered s (find_live alive name w.master) w
  unfolding send_signal
  send_signal-delivered name s w k n f h c =
      ap (send_to ams ams (control_at sigqueue reaches) (queue_here sigqueue) s) (
        lookup_agent-at_master name w
        ∙ ap (λ q. (q.0, record w { master = q.1 }))
            (lookup_agent-find_live alive now peer_ip name w.master n f))
      ∙ found (find_agent name w.master.ams) refl
    where
      found :
          (o : Option AgentRecord)
          → find_agent name w.master.ams ≡ o
          → send_to ams ams (control_at sigqueue reaches) (queue_here sigqueue) s (
              let (i, m) = infos_found (live_one alive name o w.master) in
              (i, record w { master = m }))
            ≡ delivered s (live_one alive name o w.master) w
      found none e = refl
      found (some r) e = elim (Bool-cases (is_dead alive r)) [
        | inl dead ↦ rw dead refl
        | inr live ↦ elim (Bool-cases (r.slave_ip == "")) [
          | inl local ↦ rw (live, local) refl
          | inr remote ↦ rw (live, remote) (send_away-delivered s r w k (f.readable r e).pid_ok h c)
        ]
      ]
