-- ===== src/Utils.antt =====
-- include/gagent/utils: the log.
pub mod Logger
