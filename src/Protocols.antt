-- ===== src/Protocols.antt =====
-- include/gagent/protocols: the FIPA protocols as behaviours over a transport.
pub mod World
pub mod Request
pub mod ContractNet
pub mod Subscribe
