-- ===== src/Withdraw.antt =====
-- internal/withdraw/service.go: the service that withdraws the whole position.
-- The children hold the service's data (Types), the nonce and fees of a transaction (Fees), what is
-- stored of an execution (Attempts), the sending of a transaction (Submission), and one execution
-- (Execute); the proofs stand in the modules named for what they prove.
pub mod Types
pub mod Fees
pub mod Attempts
pub mod Submission
pub mod Execute
pub mod Outcomes
pub mod Runs
pub mod Pricing
pub mod Preparation
pub mod Safety
pub mod Budget
pub mod Sequences
pub mod Liveness
pub mod DryRuns
