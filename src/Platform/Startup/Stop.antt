-- ===== src/Platform/Startup/Stop.antt =====
-- What the orderly stop of a slave, in platform/main.cpp, does to the registries of its master.
use g_agent.Base.{
  to_u16, ℕ, String, List, Bool, true, false, Option, none, some, if◌then◌else◌, ◌==◌, string_key,
  ◌≡◌, refl, sym, ◌∙◌, lookup, unless, lookup-erase, lookup-erase_if, IsDistinct-erase,
  IsDistinct-erase_if, ==_refl, ℤ,
}
use g_agent.Platform.Input.Words.{is_one_word}
use g_agent.Platform.Slaves.{drop_slave}
use g_agent.Platform.Ams.{AgentRecord, deregister_slave, find_agent}
use g_agent.Platform.Ams.Server.{Master}
use g_agent.Platform.Config.{Config}
use g_agent.Platform.Watchdog.{Registries}
use g_agent.Platform.Startup.{stop_slave}
use g_agent.Platform.Startup.Session.{master_at, stop_slave-drop_slave}
use g_agent.Platform.Startup.Beats.{
  Event, run_events, services_of, AreDistinct, run_events-unregistered,
}

-- The AMS of a master with its registry of slaves.
abbrev pub ams_part : Registries → Master
ams_part r = record { ams = r.ams; slave_registry = some r.slave_registry }

-- The slave's entry and its agents are gone, its services are not.
abbrev pub stopped : String → Registries → Registries
stopped ip r = record r {
  ams = deregister_slave ip r.ams;
  slave_registry = drop_slave ip r.slave_registry;
}

stopped-AreDistinct : (ip : String) (r : Registries) → AreDistinct r → AreDistinct (stopped ip r)
unfolding deregister_slave drop_slave
stopped-AreDistinct ip r h = record {
  names = IsDistinct-erase_if (λ g. g.slave_ip == ip) r.ams.registry h.names;
  slaves = IsDistinct-erase ip r.slave_registry.slaves h.slaves;
}

-- A slave that stops in order and reaches its master leaves nothing in the AMS and in the registry of
-- slaves: no agent has its address any more, and its address is not registered. Its services stay in
-- the directory: after any heartbeats and any rounds of the watchdog they are those of before. Names
-- and slave addresses are distinct, and the slave's address is a word.
pub stop_slave-services_of :
    (alive : ℤ → Bool) (now : ℕ) (peer_ip : String) (reaches : String → ℕ → Bool) (cfg : Config)
    (timeout_s : ℕ) (es : List (ℕ × Event)) (r : Registries)
    → AreDistinct r
    → is_one_word cfg.slave_ip ≡ true
    → reaches cfg.master_ip (to_u16 cfg.master_port) ≡ true
    → let after = stopped cfg.slave_ip r in
      (stop_slave (master_at alive now peer_ip reaches) cfg (ams_part r) ≡ ams_part after)
      × ((n : String) (g : AgentRecord)
          → find_agent n after.ams ≡ some g
          → (g.slave_ip == cfg.slave_ip) ≡ false)
      × (lookup cfg.slave_ip after.slave_registry.slaves ≡ none)
      × (services_of cfg.slave_ip (run_events timeout_s es after) ≡ services_of cfg.slave_ip r)
unfolding find_agent deregister_slave drop_slave
stop_slave-services_of alive now peer_ip reaches cfg timeout_s es r d w h =
    let ip = cfg.slave_ip in
    let dropped : lookup ip (drop_slave ip r.slave_registry).slaves ≡ none =
      lookup-erase ip ip r.slave_registry.slaves ∙ rw (==_refl ip) refl in
    (
      stop_slave-drop_slave alive now peer_ip reaches cfg (ams_part r) w h,
      λ n g e.
          spared ip (lookup n r.ams.registry) g
            (sym (lookup-erase_if (λ g. g.slave_ip == ip) n r.ams.registry d.names) ∙ e),
      dropped,
      (run_events-unregistered timeout_s ip es (stopped ip r) (stopped-AreDistinct ip r d)
          dropped).0,
    )
  where
    spared :
        (ip : String) (o : Option AgentRecord) (g : AgentRecord)
        → unless (λ g. g.slave_ip == ip) o ≡ some g
        → (g.slave_ip == ip) ≡ false
    spared ip none g e = cc
    spared ip (some a) g e = at_ip (a.slave_ip == ip) refl e
      where
        at_ip :
            (b : Bool)
            → (a.slave_ip == ip) ≡ b
            → (if b then none else some a) ≡ some g
            → (g.slave_ip == ip) ≡ false
        at_ip true k e = cc
        at_ip false k e = cc
