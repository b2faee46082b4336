-- ===== src/Core.antt =====
-- src/core: the behaviours and the loop of Agent.cpp that drives one, the life cycle of an agent,
-- its migration to another machine, its identifier, and the factory of behaviours.
pub mod Behaviour
pub mod Sequential
pub mod Timers
pub mod Parallel
pub mod Fsm
pub mod Migration
pub mod Threads
pub mod Ids
pub mod Factory
pub mod Lifecycle
