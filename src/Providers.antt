-- ===== src/Providers.antt =====
-- internal/app/providers.go: the log and the thresholds that the Telegram commands show and change.
pub mod Database
pub mod Thresholds
pub mod Listing
pub mod Logs
pub mod Confirming
pub mod Requesting
