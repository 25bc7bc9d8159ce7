-- ===== src/Telegram.antt =====
-- internal/interactions/telegram: the commands and the alerts of the Telegram bot.
pub mod Commands
pub mod Types
pub mod Dispatch
pub mod Service
pub mod Formatter
pub mod Bounds
pub mod Privacy
pub mod Polling
