-- ===== src/Tests.antt =====
-- Runs of the model at concrete inputs: a small world of nodes, a vault and a signer, and in it the
-- conditions of the theorems.
mod Configuration
mod World
mod Position
mod Signing
mod Withdrawals
mod Fees
mod Nodes
mod Monitoring
mod VaultStates
mod Confirmations
mod Tables
mod Database
mod Telegram
mod Runtime
