-- ===== src/Modules.antt =====
-- internal/monitor/modules/morpho: the monitor modules of a Morpho vault.
pub mod Comparisons
pub mod SharePrice
pub mod Liquidity
pub mod LossBps
pub mod Prices
pub mod Exits
pub mod VaultState
pub mod Drift
