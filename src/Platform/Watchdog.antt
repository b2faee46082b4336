-- ===== src/Platform/Watchdog.antt =====
-- `startWatchdog` of platform/SlaveRegistry.cpp: one round of its loop. `now` is the clock's reading
-- in the round.
use mathlib.Core.Path.{fun_ext}
use g_agent.Base.{
  ℕ, String, List, [], ◌∷◌, Bool, true, false, ◌&&◌, ◌||◌, not, Option, none, some, if◌then◌else◌,
  ◌==◌, string_key, keep, keep-keep, ◌≡◌, refl, sym, ap, ◌∙◌, arith, eq_iff, Map, lookup, unless,
  IsDistinct, Fresh, IsDistinct-erase_if, lookup-erase, lookup-erase_if,
}
use g_agent.Platform.Slaves.{SlaveInfo, SlaveRegistry, is_late, dead_slaves, drop_slave}
use g_agent.Platform.Ams as AmsPart
use g_agent.Platform.Ams.{AgentRecord, Ams, find_agent}
use g_agent.Platform.Df as DfPart
use g_agent.Platform.Df.{Service, Df}

pub record Registries : Type 0 where
  pub ams : Ams
  pub df : Df
  pub slave_registry : SlaveRegistry

-- The body of the loop over the dead slaves.
unfoldable pub purge_slave : String → Registries → Registries
purge_slave ip r = record {
  ams = AmsPart.deregister_slave ip r.ams;
  df = DfPart.deregister_slave ip r.df;
  slave_registry = drop_slave ip r.slave_registry;
}

unfoldable pub purge_slaves : List String → Registries → Registries
purge_slaves [] r = r
purge_slaves (ip ∷ ips) r = purge_slaves ips (purge_slave ip r)

unfoldable pub sweep : ℕ → ℕ → Registries → Registries
unfolding purge_slaves
sweep timeout_s now r = purge_slaves (dead_slaves timeout_s now r.slave_registry.slaves) r

-- The slave's last heartbeat is older than the limit.
abbrev pub late : ℕ → ℕ → String → Registries → Bool
late timeout_s now ip r = elim (lookup ip r.slave_registry.slaves) [
  | none ↦ false
  | some info ↦ is_late timeout_s now info
]

is_in : String → List String → Bool
is_in a [] = false
is_in a (b ∷ bs) = a == b || is_in a bs

unless_or :
    {V : Type 0} (p q : V → Bool) (o : Option V)
    → unless q (unless p o) ≡ unless (λ v. p v || q v) o
unless_or p q none = refl
unless_or p q (some v) = ground arith

unless_none : {V : Type 0} (o : Option V) → unless (λ v. false) o ≡ o
unless_none none = refl
unless_none (some v) = refl

keep_all : {A : Type 0} (xs : List A) → keep (λ x. true) xs ≡ xs
keep_all [] = refl
keep_all (x ∷ xs) = ap (λ l. x ∷ l) (keep_all xs)

not_or : (a b : Bool) → (not a && not b) ≡ not (a || b)
not_or true b = refl
not_or false b = refl

purge_slaves-agents :
    (ips : List String) (r : Registries) (n : String)
    → IsDistinct r.ams.registry
    → find_agent n (purge_slaves ips r).ams
      ≡ unless (λ g. is_in g.slave_ip ips) (find_agent n r.ams)
unfolding purge_slaves purge_slave find_agent AmsPart.deregister_slave is_in
purge_slaves-agents [] r n h = sym (unless_none (lookup n r.ams.registry))
purge_slaves-agents (ip ∷ ips) r n h =
    purge_slaves-agents ips (purge_slave ip r) n
      (IsDistinct-erase_if (λ g. g.slave_ip == ip) r.ams.registry h)
    ∙ (ap (unless (λ g. is_in g.slave_ip ips))
          (lookup-erase_if (λ g. g.slave_ip == ip) n r.ams.registry h)
        ∙ unless_or (λ g. g.slave_ip == ip) (λ g. is_in g.slave_ip ips) (lookup n r.ams.registry))

purge_slaves-services :
    (ips : List String) (r : Registries)
    → (purge_slaves ips r).df.services ≡ keep (λ s. not (is_in s.slave_ip ips)) r.df.services
unfolding purge_slaves purge_slave DfPart.deregister_slave is_in
purge_slaves-services [] r = sym (keep_all r.df.services)
purge_slaves-services (ip ∷ ips) r =
    purge_slaves-services ips (purge_slave ip r)
    ∙ (keep-keep (λ s. not (is_in s.slave_ip ips)) (λ s. not (s.slave_ip == ip)) r.df.services
        ∙ ap (λ p. keep p r.df.services)
            (fun_ext λ s. not_or (s.slave_ip == ip) (is_in s.slave_ip ips)))

purge_slaves-slaves :
    (ips : List String) (r : Registries) (ip : String)
    → lookup ip (purge_slaves ips r).slave_registry.slaves
      ≡ (if is_in ip ips then none else lookup ip r.slave_registry.slaves)
unfolding purge_slaves purge_slave drop_slave is_in
purge_slaves-slaves [] r ip = refl
purge_slaves-slaves (k ∷ ks) r ip = ground (
  arith,
  eq_iff k ip,
  eq_iff ip k,
  purge_slaves-slaves ks (purge_slave k r) ip,
  lookup-erase k ip r.slave_registry.slaves,
)

-- What the watchdog collects is what is late.
late_at : ℕ → ℕ → String → Map String SlaveInfo → Bool
late_at timeout_s now ip m = elim (lookup ip m) [
  | none ↦ false
  | some info ↦ is_late timeout_s now info
]

Fresh-is_in :
    (timeout_s now : ℕ) (ip : String) (m : Map String SlaveInfo)
    → Fresh ip m
    → is_in ip (dead_slaves timeout_s now m) ≡ false
unfolding dead_slaves is_in
Fresh-is_in timeout_s now ip [] h = refl
Fresh-is_in timeout_s now ip ((k, info) ∷ m) h =
    ground (arith, eq_iff k ip, eq_iff ip k, Fresh-is_in timeout_s now ip m)

is_in-dead_slaves :
    (timeout_s now : ℕ) (ip : String) (m : Map String SlaveInfo)
    → IsDistinct m
    → is_in ip (dead_slaves timeout_s now m) ≡ late_at timeout_s now ip m
unfolding dead_slaves is_in lookup late_at
is_in-dead_slaves timeout_s now ip [] h = refl
is_in-dead_slaves timeout_s now ip ((k, info) ∷ m) h = ground (
  arith,
  eq_iff k ip,
  eq_iff ip k,
  Fresh-is_in timeout_s now k m,
  Fresh-is_in timeout_s now ip m,
  is_in-dead_slaves timeout_s now ip m,
)

-- In a platform whose names and slave addresses are distinct, a round of the watchdog removes the
-- slaves whose last heartbeat is older than the limit, the agents of those slaves from the AMS and
-- their services from the DF; every other slave, agent and service stays, the services in order.
pub sweep_lem :
    (timeout_s now : ℕ) (r : Registries)
    → IsDistinct r.ams.registry
    → IsDistinct r.slave_registry.slaves
    → ((ip : String)
        → lookup ip (sweep timeout_s now r).slave_registry.slaves
          ≡ (if late timeout_s now ip r then none else lookup ip r.slave_registry.slaves))
      × ((n : String)
          → find_agent n (sweep timeout_s now r).ams
            ≡ unless (λ g. late timeout_s now g.slave_ip r) (find_agent n r.ams))
      × ((sweep timeout_s now r).df.services
          ≡ keep (λ s. not (late timeout_s now s.slave_ip r)) r.df.services)
unfolding sweep late_at
sweep_lem timeout_s now r names slaves =
    let dead = dead_slaves timeout_s now r.slave_registry.slaves in
    let same : (λ ip. is_in ip dead) ≡ (λ ip. late timeout_s now ip r) =
      fun_ext λ ip. is_in-dead_slaves timeout_s now ip r.slave_registry.slaves slaves in
    (
      λ ip.
          purge_slaves-slaves dead r ip
          ∙ ap (λ q. if q ip then none else lookup ip r.slave_registry.slaves) same,
      λ n.
          purge_slaves-agents dead r n names
          ∙ ap (λ q. unless (λ g. q g.slave_ip) (find_agent n r.ams)) same,
      purge_slaves-services dead r ∙ ap (λ q. keep (λ s. not (q s.slave_ip)) r.df.services) same,
    )
