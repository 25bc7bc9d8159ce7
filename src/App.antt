-- ===== src/App.antt =====
-- internal/app and cmd/withdraw-bot: how a run of the program builds its parts, and ends.
pub mod Mode
pub mod Runtime
pub mod Services
pub mod Run
pub mod Opening
pub mod Released
pub mod Budget
pub mod Checking
pub mod Mistakes
