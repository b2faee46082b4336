-- ===== src/Platform/Ams.antt =====
-- platform/ams/AMS.cpp: the registry of the agents. The mutex makes each operation one step.
pub mod Server
pub mod Refinement
pub mod WellFormed
pub mod Liveness
use g_agent.Base.{
  ℕ, String, Bool, true, false, Option, none, some, if◌then◌else◌, ◌==◌, string_key, Map, lookup,
  insert, erase, erase_if, contains, length, ℤ,
}

pub record AgentRecord : Type 0 where
  pub name : String
  pub address : String
  pub pid : ℤ
  pub state : String
  pub slave_ip : String

pub record Ams : Type 0 where
  pub registry : Map String AgentRecord

unfoldable pub register_agent : AgentRecord → Ams → Bool × Ams
register_agent rec a =
    if contains rec.name a.registry
    then (false, a)
    else (true, record { registry = insert rec.name rec a.registry })

unfoldable pub register_endpoint : AgentRecord → Ams → Ams
register_endpoint rec a = record { registry = insert rec.name rec a.registry }

unfoldable pub deregister_agent : String → Ams → Bool × Ams
deregister_agent n a =
    if contains n a.registry then (true, record { registry = erase n a.registry }) else (false, a)

unfoldable pub deregister_slave : String → Ams → Ams
deregister_slave ip a = record { registry = erase_if (λ r. r.slave_ip == ip) a.registry }

-- `lookup`
unfoldable pub find_agent : String → Ams → Option AgentRecord
find_agent n a = lookup n a.registry

abbrev with_state : String → String → Option AgentRecord → Ams → Bool × Ams
with_state n state none a = (false, a)
with_state n state (some r) a =
    (true, record { registry = insert n (record r { state = state }) a.registry })

unfoldable pub set_state : String → String → Ams → Bool × Ams
set_state n state a = with_state n state (lookup n a.registry) a

unfoldable pub size : Ams → ℕ
size a = length a.registry
