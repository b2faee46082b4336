-- ===== src/Platform/Ams/Refinement.antt =====
-- The registry of AMS.cpp against its specification, a partial function from names to records.
use mathlib.Core.Path.{fun_ext}
use g_agent.Base.{
  String, List, [], ◌∷◌, Bool, true, false, Option, none, some, if◌then◌else◌, ◌==◌, string_key,
  is_some, unless, ◌≡◌, refl, sym, arith, eq_iff, Option-cases, inl, inr, lookup, lookup-insert,
  lookup-erase, lookup-erase_if, IsDistinct, IsDistinct-insert, IsDistinct-erase,
  IsDistinct-erase_if,
}
use g_agent.Platform.Ams.{
  AgentRecord, Ams, register_agent, register_endpoint, deregister_agent, deregister_slave,
  find_agent, set_state,
}

pub data Call : Type 0 where
  registers : AgentRecord → Call
  routes : AgentRecord → Call
  leaves : String → Call
  slave_leaves : String → Call
  finds : String → Call
  changes : String → String → Call

-- What a call returns, if it returns something.
pub data Answer : Type 0 where
  returned : Bool → Answer
  record_found : Option AgentRecord → Answer
  nothing : Answer

abbrev of_bool : Bool × Ams → Answer × Ams
of_bool (b, a) = (returned b, a)

ams_step : Call → Ams → Answer × Ams
ams_step (registers r) a = of_bool (register_agent r a)
ams_step (routes r) a = (nothing, register_endpoint r a)
ams_step (leaves n) a = of_bool (deregister_agent n a)
ams_step (slave_leaves ip) a = (nothing, deregister_slave ip a)
ams_step (finds n) a = (record_found (find_agent n a), a)
ams_step (changes n state) a = of_bool (set_state n state a)

pub run_ams : List Call → Ams → List Answer
run_ams [] a = []
run_ams (c ∷ cs) a = (ams_step c a).0 ∷ run_ams cs (ams_step c a).1

abbrev pub Directory : Type 0
Directory = String → Option AgentRecord

abbrev put : String → Option AgentRecord → Directory → Directory
put n o d k = if n == k then o else d k

abbrev in_state : String → AgentRecord → AgentRecord
in_state state r = record r { state = state }

abbrev mapped : String → Option AgentRecord → Option AgentRecord
mapped state none = none
mapped state (some r) = some (in_state state r)

spec_step : Call → Directory → Answer × Directory
spec_step (registers r) d =
    if is_some (d r.name) then (returned false, d) else (returned true, put r.name (some r) d)
spec_step (routes r) d = (nothing, put r.name (some r) d)
spec_step (leaves n) d = (returned (is_some (d n)), put n none d)
spec_step (slave_leaves ip) d = (nothing, λ k. unless (λ r. r.slave_ip == ip) (d k))
spec_step (finds n) d = (record_found (d n), d)
spec_step (changes n state) d = (returned (is_some (d n)), put n (mapped state (d n)) d)

pub run_directory : List Call → Directory → List Answer
run_directory [] d = []
run_directory (c ∷ cs) d = (spec_step c d).0 ∷ run_directory cs (spec_step c d).1

abbrev view : Ams → Directory
view a k = find_agent k a

step-answer : (c : Call) (a : Ams) → (ams_step c a).0 ≡ (spec_step c (view a)).0
unfolding ams_step spec_step register_agent deregister_agent set_state find_agent
step-answer (registers r) a = ground arith
step-answer (routes r) a = refl
step-answer (leaves n) a = ground arith
step-answer (slave_leaves ip) a = refl
step-answer (finds n) a = refl
step-answer (changes n state) a = ground arith

step-entry :
    (c : Call) (a : Ams) (k : String)
    → IsDistinct a.registry
    → (spec_step c (view a)).1 k ≡ view (ams_step c a).1 k
unfolding ams_step spec_step register_agent register_endpoint deregister_agent deregister_slave
    set_state find_agent
step-entry (registers r) a k h = ground (arith, lookup-insert r.name k r a.registry)
step-entry (routes r) a k h = ground (arith, lookup-insert r.name k r a.registry)
step-entry (leaves n) a k h = ground (arith, eq_iff n k, lookup-erase n k a.registry)
step-entry (slave_leaves ip) a k h = sym (lookup-erase_if (λ r. r.slave_ip == ip) k a.registry h)
step-entry (finds n) a k h = refl
step-entry (changes n state) a k h = elim (Option-cases (lookup n a.registry)) [
  | inl e ↦ ground (arith, eq_iff n k)
  | inr (r, e) ↦ ground (arith, eq_iff n k, lookup-insert n k (in_state state r) a.registry)
]

step-IsDistinct :
    (c : Call) (a : Ams) → IsDistinct a.registry → IsDistinct (ams_step c a).1.registry
unfolding ams_step register_agent register_endpoint deregister_agent deregister_slave set_state
step-IsDistinct (registers r) a h = ground (arith, IsDistinct-insert r.name r a.registry)
step-IsDistinct (routes r) a h = IsDistinct-insert r.name r a.registry h
step-IsDistinct (leaves n) a h = ground (arith, IsDistinct-erase n a.registry)
step-IsDistinct (slave_leaves ip) a h = IsDistinct-erase_if (λ r. r.slave_ip == ip) a.registry h
step-IsDistinct (finds n) a h = h
step-IsDistinct (changes n state) a h = elim (Option-cases (lookup n a.registry)) [
  | inl e ↦ rw e h
  | inr (r, e) ↦ rw e (IsDistinct-insert n (in_state state r) a.registry h)
]

-- For every sequence of calls on a registry whose names are distinct, the answers are those of a
-- partial function from names to records: a registration of a name that is taken is refused and
-- changes nothing, and a slave that leaves takes its own agents with it and no other.
pub run_ams-run_directory :
    (cs : List Call) (a : Ams)
    → IsDistinct a.registry
    → run_ams cs a ≡ run_directory cs (λ k. find_agent k a)
unfolding run_ams run_directory
run_ams-run_directory [] a h = refl
run_ams-run_directory (c ∷ cs) a h =
    let same : (spec_step c (view a)).1 ≡ view (ams_step c a).1 = fun_ext λ k. step-entry c a k h in
    rw (same, ← step-answer c a, run_ams-run_directory cs (ams_step c a).1 (step-IsDistinct c a h))
