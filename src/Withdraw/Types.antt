-- ===== src/Withdraw/Types.antt =====
-- internal/withdraw/service.go: the data of the withdrawal service, and the interfaces of what it
-- calls. An implementation is given by its answers at the time of one call.
use withdraw_bot.Prelude.{ℕ, ℤ, String, Bool, Option, List}
use withdraw_bot.Errors.{Error, Result}
use withdraw_bot.Core.{
  Address, Hash, Time, MonitorModuleId, FindingKey, PositionSnapshot, FullExitRequest, TxCandidate,
  FullExitSimulation,
}
use withdraw_bot.Ethereum.{DynamicFeeTx, SignedTx}
use withdraw_bot.Gas.{FeeCaps, GasPolicy}

-- `TriggerKind`, a string.
abbrev pub trigger_kind_urgent : String
trigger_kind_urgent = "urgent"

-- `unset` is the empty string of a result that is returned with an error.
pub data WithdrawalStatus : Type 0 where
  unset noop simulation_failed simulated submitted : WithdrawalStatus

pub record WithdrawalTrigger : Type 0 where
  pub kind : String
  pub module_id : MonitorModuleId
  pub finding_key : FindingKey

pub record WithdrawalResult : Type 0 where
  pub status : WithdrawalStatus
  pub noop : Bool
  pub tx_hash : Hash
  pub nonce : ℕ
  pub gas_units : ℕ
  pub fee_caps : FeeCaps
  pub expected_asset_units : Option ℤ

pub record WithdrawalAttempt : Type 0 where
  pub id : String
  pub trigger : WithdrawalTrigger
  pub status : WithdrawalStatus
  pub tx_hash : Hash
  pub nonce : ℕ
  pub gas_units : ℕ
  pub fee_caps : FeeCaps
  pub expected_asset_units : Option ℤ
  pub simulation_success : Bool
  pub failure_reason : String
  pub created_at : Time
  pub updated_at : Time

-- A simulation comes back beside its error, since the service reads both.
pub record Adapter : Type 0 where
  pub position : Result PositionSnapshot
  pub build_full_exit : FullExitRequest → Result TxCandidate
  pub simulate_full_exit : FullExitRequest → FullExitSimulation × Option Error

-- `signer.Service`
pub record Signer : Type 0 where
  pub address : Result Address
  pub sign_transaction : DynamicFeeTx → ℤ → Result SignedTx

pub record TransactionSubmitter : Type 0 where
  pub pending_nonce_at : Address → Result ℕ
  pub suggest_gas_price : Result (Option ℤ)
  pub suggest_gas_tip_cap : Result (Option ℤ)
  pub send_transaction : SignedTx → Option Error

pub record AttemptRepository : Type 0 where
  pub insert_withdrawal_attempt : WithdrawalAttempt → Option Error

pub record PendingWithdrawal : Type 0 where
  pub nonce : ℕ
  pub fee_caps : FeeCaps
  pub submitted_at : Time
  pub tx_hash : Hash

-- The configuration of the service, with what its environment answers in one call: `now` is what
-- the clock shows, `format_time` prints a time in the layout of the attempt ids.
pub record Service : Type 0 where
  pub adapter : Option Adapter
  pub signer : Option Signer
  pub chain_id : Option ℤ
  pub submitter : Option TransactionSubmitter
  pub repository : Option AttemptRepository
  pub gas_policy : GasPolicy
  pub gas_limit_buffer_bps : ℤ
  pub replacement_timeout : ℤ
  pub now : Time
  pub format_time : Time → String

-- What a call may change: the pending withdrawal, every transaction that was handed to
-- `SendTransaction` (also where that answered an error), and the attempts that were stored.
pub record State : Type 0 where
  pub pending : Option PendingWithdrawal
  pub handed : List SignedTx
  pub stored : List WithdrawalAttempt
