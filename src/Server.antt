-- ===== src/Server.antt =====
-- src/server: its command line, the accounts that it begins with, and its log.
pub mod Args
pub mod Accounts
pub mod Logger
mod Tests
