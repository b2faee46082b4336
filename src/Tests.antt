-- ===== src/Tests.antt =====
-- The theorems at concrete inputs.
mod Messages
mod Behaviours
mod Conversations
mod Directories
mod Snapshots
mod Texts
mod Clients
mod Agents
mod Platforms
mod Receiving
mod Deliveries
mod Logs
