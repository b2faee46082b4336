-- ===== src/Env.antt =====
-- src/env and include/gagent/env: the environment that agents share, with what agents report to it.
pub mod Nsap
pub mod Attributs
pub mod Reports
pub mod Json
pub mod Visual
pub mod Client
