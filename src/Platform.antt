-- ===== src/Platform.antt =====
-- platform: the directory services of a platform. Ams, Df and Slaves are the three registries, Input
-- is the stream by which their servers take a command line apart.
pub mod Input
pub mod Slaves
pub mod Ams
pub mod Df
pub mod Watchdog
pub mod Config
pub mod Clients
pub mod Control
pub mod Manager
pub mod Startup
