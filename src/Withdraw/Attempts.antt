-- ===== src/Withdraw/Attempts.antt =====
-- internal/withdraw/service.go: the outcome of an execution, the request of a full exit, and the
-- attempts that are stored.
use withdraw_bot.Prelude.{
  ℤ, String, Bool, true, false, Option, none, some, [], ◌∷◌, ◌++◌, is_zero, is_negative, ◌<>◌,
  if◌then◌else◌,
}
use withdraw_bot.Errors.{Error}
use withdraw_bot.Core.{PositionSnapshot, FullExitRequest, FullExitSimulation}
use withdraw_bot.Gas.{no_fee_caps}
use withdraw_bot.Withdraw.Types.{
  WithdrawalStatus, WithdrawalTrigger, WithdrawalResult, WithdrawalAttempt, AttemptRepository,
  Service, State,
}

-- A result, its error, and the state that is left.
abbrev pub Outcome : Type 0
Outcome = WithdrawalResult × Option Error × State

-- `WithdrawalResult{}`
abbrev pub no_result : WithdrawalResult
no_result = record {
  status = WithdrawalStatus.unset;
  noop = false;
  tx_hash = 0;
  nonce = 0;
  gas_units = 0;
  fee_caps = no_fee_caps;
  expected_asset_units = none;
}

-- `core.FullExitSimulation{}`
abbrev pub no_simulation : FullExitSimulation
no_simulation = record {
  success = false;
  expected_asset_units = none;
  gas_units = 0;
  revert_reason = "";
}

abbrev pub fail : Error → State → Outcome
fail e s = (no_result, some e, s)

-- `ShareBalance == nil || ShareBalance.Sign() == 0`
abbrev pub has_no_shares : Option ℤ → Bool
has_no_shares none = true
has_no_shares (some v) = is_zero v

abbrev pub has_negative_shares : Option ℤ → Bool
has_negative_shares none = false
has_negative_shares (some v) = is_negative v

unfoldable pub full_exit_request : PositionSnapshot → FullExitRequest
full_exit_request position = record {
  vault = position.vault;
  owner = position.owner;
  receiver = position.receiver;
  shares = position.share_balance;
}

unfoldable pub status_for_simulation : FullExitSimulation → WithdrawalStatus
status_for_simulation simulation =
    if simulation.success then WithdrawalStatus.simulated else WithdrawalStatus.simulation_failed

unfoldable pub withdrawal_attempt_id : Service → WithdrawalTrigger → String
withdrawal_attempt_id service trigger =
    service.format_time service.now
    <> "-"
    <> trigger.kind
    <> "-"
    <> trigger.module_id
    <> "-"
    <> trigger.finding_key

abbrev pub attempt_of :
    Service → WithdrawalTrigger → WithdrawalResult → FullExitSimulation → String → WithdrawalAttempt
attempt_of service trigger result simulation failure_reason = record {
  id = withdrawal_attempt_id service trigger;
  trigger = trigger;
  status = result.status;
  tx_hash = result.tx_hash;
  nonce = result.nonce;
  gas_units = result.gas_units;
  fee_caps = result.fee_caps;
  expected_asset_units = result.expected_asset_units;
  simulation_success = simulation.success;
  failure_reason = failure_reason;
  created_at = service.now;
  updated_at = service.now;
}

-- The attempt is stored where the repository answers no error.
unfoldable pub record_attempt : AttemptRepository → WithdrawalAttempt → State → Option Error × State
record_attempt repository attempt s = elim (repository.insert_withdrawal_attempt attempt) [
  | none ↦ (none, record s { stored = s.stored ++ (attempt ∷ []) })
  | some e ↦ (some e, s)
]
