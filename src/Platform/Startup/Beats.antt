-- ===== src/Platform/Startup/Beats.antt =====
-- A slave of platform/main.cpp over time: the heartbeats that reach the AMS, and the rounds of the
-- watchdog of platform/SlaveRegistry.cpp, in any order.
use mathlib.Core.Path.{fun_ext}
use g_agent.Base.{
  ℕ, ◌-◌, String, List, [], ◌∷◌, Bool, true, false, ◌&&◌, not, Option, none, some, if◌then◌else◌,
  ◌==◌, leb, string_key, keep, keep-keep, ltb, both_true, ◌≡◌, refl, ap, ◌∙◌, arith, eq_iff, lookup,
  contains, lookup-insert, unless, IsDistinct, IsDistinct-insert, IsDistinct-erase,
  IsDistinct-erase_if, Bool-cases, inl, inr,
}
use g_agent.Platform.Slaves.{
  SlaveInfo, SlaveRegistry, is_late, seconds, beat_at, heartbeat, drop_slave, dead_slaves,
}
use g_agent.Platform.Ams as AmsPart
use g_agent.Platform.Ams.{AgentRecord, Ams, find_agent}
use g_agent.Platform.Df.{Service}
use g_agent.Platform.Watchdog.{Registries, purge_slave, purge_slaves, sweep, sweep_lem, late}

-- A heartbeat with an address, and a round of the watchdog.
pub data Event : Type 0 where
  beats : String → Event
  sweeps : Event

-- The event at a reading of the clock.
abbrev pub happen : ℕ → ℕ × Event → Registries → Registries
happen timeout_s (now, beats ip) r = record r { slave_registry = heartbeat now ip r.slave_registry }
happen timeout_s (now, sweeps) r = sweep timeout_s now r

abbrev pub run_events : ℕ → List (ℕ × Event) → Registries → Registries
run_events timeout_s [] r = r
run_events timeout_s (e ∷ es) r = run_events timeout_s es (happen timeout_s e r)

-- At each round the last heartbeat of the slave, first at `last`, is not older than the limit.
abbrev pub is_timely : ℕ → String → ℕ → List (ℕ × Event) → Bool
is_timely timeout_s ip last [] = true
is_timely timeout_s ip last ((now, beats k) ∷ es) =
    is_timely timeout_s ip (if k == ip then now else last) es
is_timely timeout_s ip last ((now, sweeps) ∷ es) =
    leb (now - last) (seconds timeout_s) && is_timely timeout_s ip last es

-- The services that a slave's agents offer.
abbrev pub services_of : String → Registries → List Service
services_of ip r = keep (λ s. s.slave_ip == ip) r.df.services

-- The registries have one entry for each name and each address.
pub record AreDistinct (r : Registries) : Type 0 where
  pub names : IsDistinct r.ams.registry
  pub slaves : IsDistinct r.slave_registry.slaves

purge_slaves-AreDistinct :
    (ips : List String) (r : Registries) → AreDistinct r → AreDistinct (purge_slaves ips r)
unfolding purge_slaves purge_slave AmsPart.deregister_slave drop_slave
purge_slaves-AreDistinct [] r h = h
purge_slaves-AreDistinct (ip ∷ ips) r h = purge_slaves-AreDistinct ips (purge_slave ip r) (record {
  names = IsDistinct-erase_if (λ g. g.slave_ip == ip) r.ams.registry h.names;
  slaves = IsDistinct-erase ip r.slave_registry.slaves h.slaves;
})

heartbeat-IsDistinct :
    (now : ℕ) (ip : String) (s : SlaveRegistry)
    → IsDistinct s.slaves
    → IsDistinct (heartbeat now ip s).slaves
unfolding heartbeat
heartbeat-IsDistinct now ip s h = go (lookup ip s.slaves)
  where
    go : (o : Option SlaveInfo) → IsDistinct (beat_at now ip o s).slaves
    go none = h
    go (some info) = IsDistinct-insert ip (record info { last_heartbeat = now }) s.slaves h

happen-AreDistinct :
    (timeout_s : ℕ) (e : ℕ × Event) (r : Registries)
    → AreDistinct r
    → AreDistinct (happen timeout_s e r)
happen-AreDistinct timeout_s (now, beats ip) r h = record {
  names = h.names;
  slaves = heartbeat-IsDistinct now ip r.slave_registry h.slaves;
}
happen-AreDistinct timeout_s (now, sweeps) r h =
    unfold sweep in purge_slaves-AreDistinct (dead_slaves timeout_s now r.slave_registry.slaves) r h

-- The slave is registered and was last heard of at `last`.
record Heard (ip : String) (last : ℕ) (r : Registries) : Type 0 where
  info : SlaveInfo
  entry : lookup ip r.slave_registry.slaves ≡ some info
  heard : info.last_heartbeat ≡ last

heartbeat-Heard :
    (now : ℕ) (k ip : String) (last : ℕ) (r : Registries)
    → Heard ip last r
    → Heard ip
        (if k == ip then now else last)
        (record r { slave_registry = heartbeat now k r.slave_registry })
unfolding heartbeat
heartbeat-Heard now k ip last r h = elim (Bool-cases (k == ip)) [
  | inl e ↦
      let same : lookup k r.slave_registry.slaves ≡ some h.info =
        ap (λ a. lookup a r.slave_registry.slaves) ((eq_iff k ip).0 e) ∙ h.entry in
      rw (e, same)
        (record {
          info = record h.info { last_heartbeat = now };
          entry =
              lookup-insert k ip (record h.info { last_heartbeat = now }) r.slave_registry.slaves
              ∙ rw e refl;
          heard = refl;
        })
  | inr e ↦ rw e (other e (lookup k r.slave_registry.slaves))
]
  where
    other :
        (k == ip) ≡ false
        → (o : Option SlaveInfo)
        → Heard ip last (record r { slave_registry = beat_at now k o r.slave_registry })
    other e none = h
    other e (some info) = record {
      info = h.info;
      entry =
          lookup-insert k ip (record info { last_heartbeat = now }) r.slave_registry.slaves
          ∙ rw e h.entry;
      heard = h.heard;
    }

in_time :
    (timeout_s now last : ℕ) (ip : String) (r : Registries)
    → Heard ip last r
    → leb (now - last) (seconds timeout_s) ≡ true
    → late timeout_s now ip r ≡ false
unfolding is_late
in_time timeout_s now last ip r h k =
    rw (h.entry, late) (rw h.heard (not_more (seconds timeout_s) (now - last) k))
  where
    not_more : (a b : ℕ) → leb b a ≡ true → ltb a b ≡ false
    not_more a b h = ground arith

-- What is left of a slave's part: its agents and its services.
record Kept (ip : String) (r s : Registries) : Type 0 where
  agents :
      (n : String) (g : AgentRecord)
      → find_agent n r.ams ≡ some g
      → g.slave_ip ≡ ip
      → find_agent n s.ams ≡ some g
  services : services_of ip s ≡ services_of ip r

keep_late :
    (q : String → Bool) (ip : String) (l : List Service)
    → q ip ≡ false
    → keep (λ s. s.slave_ip == ip) (keep (λ s. not (q s.slave_ip)) l)
      ≡ keep (λ s. s.slave_ip == ip) l
keep_late q ip l h =
    keep-keep (λ s. s.slave_ip == ip) (λ s. not (q s.slave_ip)) l
    ∙ ap (λ p. keep p l) (fun_ext λ s. same s.slave_ip)
  where
    same : (a : String) → (not (q a) && (a == ip)) ≡ (a == ip)
    same a = elim (Bool-cases (a == ip)) [
      | inl e ↦ rw e (rw (ap q ((eq_iff a ip).0 e) ∙ h) refl)
      | inr e ↦ rw e (and_false (not (q a)))
    ]
      where
        and_false : (b : Bool) → (b && false) ≡ false
        and_false true = refl
        and_false false = refl

sweep-Kept :
    (timeout_s now : ℕ) (ip : String) (r : Registries)
    → AreDistinct r
    → late timeout_s now ip r ≡ false
    → Kept ip r (sweep timeout_s now r)
sweep-Kept timeout_s now ip r d h =
    let (slaves, names, services) = sweep_lem timeout_s now r d.names d.slaves in
    record {
      agents = λ n g e k.
          names n
          ∙ ap (unless (λ g. late timeout_s now g.slave_ip r)) e
          ∙ rw (ap (λ a. late timeout_s now a r) k ∙ h) refl;
      services =
          ap (keep (λ s. s.slave_ip == ip)) services
          ∙ keep_late (λ a. late timeout_s now a r) ip r.df.services h;
    }

sweep-Heard :
    (timeout_s now last : ℕ) (ip : String) (r : Registries)
    → AreDistinct r
    → Heard ip last r
    → late timeout_s now ip r ≡ false
    → Heard ip last (sweep timeout_s now r)
sweep-Heard timeout_s now last ip r d h k = record {
  info = h.info;
  entry = (sweep_lem timeout_s now r d.names d.slaves).0 ip ∙ rw k h.entry;
  heard = h.heard;
}

Kept-trans : {ip : String} {r s t : Registries} → Kept ip r s → Kept ip s t → Kept ip r t
Kept-trans h k = record {
  agents = λ n g e a. k.agents n g (h.agents n g e a) a;
  services = k.services ∙ h.services;
}

beat-Kept :
    (now : ℕ) (k ip : String) (r : Registries)
    → Kept ip r (record r { slave_registry = heartbeat now k r.slave_registry })
beat-Kept now k ip r = record { agents = λ n g e a. e; services = refl }

events-Kept :
    (timeout_s : ℕ) (ip : String) (last : ℕ) (es : List (ℕ × Event)) (r : Registries)
    → AreDistinct r
    → Heard ip last r
    → is_timely timeout_s ip last es ≡ true
    → (contains ip (run_events timeout_s es r).slave_registry.slaves ≡ true)
      × Kept ip r (run_events timeout_s es r)
events-Kept timeout_s ip last [] r d h t =
    (rw h.entry refl, record { agents = λ n g e k. e; services = refl })
events-Kept timeout_s ip last ((now, beats k) ∷ es) r d h t =
    let (there, kept) =
      events-Kept timeout_s ip (if k == ip then now else last) es
        (happen timeout_s (now, beats k) r) (happen-AreDistinct timeout_s (now, beats k) r d)
        (heartbeat-Heard now k ip last r h) t in
    (there, Kept-trans (beat-Kept now k ip r) kept)
events-Kept timeout_s ip last ((now, sweeps) ∷ es) r d h t =
    let (first, rest) =
      both_true (leb (now - last) (seconds timeout_s)) (is_timely timeout_s ip last es) t in
    let near = in_time timeout_s now last ip r h first in
    let (there, kept) =
      events-Kept timeout_s ip last es (sweep timeout_s now r)
        (happen-AreDistinct timeout_s (now, sweeps) r d)
        (sweep-Heard timeout_s now last ip r d h near) rest in
    (there, Kept-trans (sweep-Kept timeout_s now ip r d near) kept)

-- A slave whose heartbeats are timely is kept: for any heartbeats, of any slaves, and any rounds of the
-- watchdog, in any order, such that at each round the last heartbeat of the slave is not older than
-- the limit, the slave is registered at the end, every agent of it is registered with the same
-- record, and the directory has the same services of it in the same order. At the start the slave is
-- registered, and names and slave addresses are distinct.
pub run_events-is_timely :
    (timeout_s : ℕ) (ip : String) (info : SlaveInfo) (es : List (ℕ × Event)) (r : Registries)
    → AreDistinct r
    → lookup ip r.slave_registry.slaves ≡ some info
    → is_timely timeout_s ip info.last_heartbeat es ≡ true
    → let after = run_events timeout_s es r in
      (contains ip after.slave_registry.slaves ≡ true)
      × ((n : String) (g : AgentRecord)
          → find_agent n r.ams ≡ some g
          → g.slave_ip ≡ ip
          → find_agent n after.ams ≡ some g)
      × (services_of ip after ≡ services_of ip r)
run_events-is_timely timeout_s ip info es r d e t =
    let (there, kept) =
      events-Kept timeout_s ip info.last_heartbeat es r d
        (record { info = info; entry = e; heard = refl }) t in
    (there, kept.agents, kept.services)

heartbeat-unknown :
    (now : ℕ) (k ip : String) (s : SlaveRegistry)
    → lookup ip s.slaves ≡ none
    → lookup ip (heartbeat now k s).slaves ≡ none
unfolding heartbeat
heartbeat-unknown now k ip s h = elim (Bool-cases (k == ip)) [
  | inl e ↦ rw (ap (λ a. lookup a s.slaves) ((eq_iff k ip).0 e) ∙ h) h
  | inr e ↦ other e (lookup k s.slaves)
]
  where
    other : (k == ip) ≡ false → (o : Option SlaveInfo) → lookup ip (beat_at now k o s).slaves ≡ none
    other e none = h
    other e (some info) =
        lookup-insert k ip (record info { last_heartbeat = now }) s.slaves ∙ rw e h

-- Nobody purges the services of a slave that is not registered: for any heartbeats and any rounds of
-- the watchdog, in any order, the directory has the same services of that address, in the same order,
-- and the address is not registered by them. Names and slave addresses are distinct.
pub run_events-unregistered :
    (timeout_s : ℕ) (ip : String) (es : List (ℕ × Event)) (r : Registries)
    → AreDistinct r
    → lookup ip r.slave_registry.slaves ≡ none
    → let after = run_events timeout_s es r in
      (services_of ip after ≡ services_of ip r) × (lookup ip after.slave_registry.slaves ≡ none)
run_events-unregistered timeout_s ip [] r d h = (refl, h)
run_events-unregistered timeout_s ip ((now, beats k) ∷ es) r d h =
    run_events-unregistered timeout_s ip es (happen timeout_s (now, beats k) r)
      (happen-AreDistinct timeout_s (now, beats k) r d)
      (heartbeat-unknown now k ip r.slave_registry h)
run_events-unregistered timeout_s ip ((now, sweeps) ∷ es) r d h =
    let unheard : late timeout_s now ip r ≡ false = rw (h, late) refl in
    let (same, gone) =
      run_events-unregistered timeout_s ip es (sweep timeout_s now r)
        (happen-AreDistinct timeout_s (now, sweeps) r d)
        ((sweep_lem timeout_s now r d.names d.slaves).0 ip ∙ rw unheard h) in
    (same ∙ (sweep-Kept timeout_s now ip r d unheard).services, gone)
