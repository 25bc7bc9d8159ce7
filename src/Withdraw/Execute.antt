-- ===== src/Withdraw/Execute.antt =====
-- internal/withdraw/service.go: `ExecuteFullExit` and `DryRunFullExit`. The mutex of the service
-- makes each execution one step from state to state.
use withdraw_bot.Prelude.{String, true, false, ◌||◌, not, Option, none, some, ◌==◌, if◌then◌else◌}
use withdraw_bot.Errors.{Error, Sentinel, Result, ok, err, ◌>>=◌, is_none}
use withdraw_bot.Core.{Address, PositionSnapshot, FullExitRequest, FullExitSimulation}
use withdraw_bot.Withdraw.Types.{
  WithdrawalStatus, WithdrawalTrigger, WithdrawalResult, PendingWithdrawal, Service, State,
}
use withdraw_bot.Withdraw.Fees.{is_waiting}
use withdraw_bot.Withdraw.Attempts.{
  Outcome, attempt_of, fail, full_exit_request, has_negative_shares, has_no_shares, no_result,
  no_simulation, record_attempt, status_for_simulation,
}
use withdraw_bot.Withdraw.Submission.{Ready, execute_submission, required, validate_execute_config}

-- The result for a submission that is still within the replacement timeout.
abbrev pub waiting_result : PendingWithdrawal → FullExitSimulation → WithdrawalResult
waiting_result pending simulation = record {
  status = WithdrawalStatus.submitted;
  noop = false;
  tx_hash = pending.tx_hash;
  nonce = pending.nonce;
  gas_units = simulation.gas_units;
  fee_caps = pending.fee_caps;
  expected_asset_units = simulation.expected_asset_units;
}

abbrev pub failed_result : FullExitSimulation → WithdrawalResult
failed_result simulation = record no_result {
  status = WithdrawalStatus.simulation_failed;
  gas_units = simulation.gas_units;
  expected_asset_units = simulation.expected_asset_units;
}

abbrev pub simulation_failed_reason : String
simulation_failed_reason = "full-exit simulation failed"

-- The failure is returned once it is stored.
abbrev after_failure : WithdrawalResult → Option Error × State → Outcome
after_failure result (some e, s) = fail e s
after_failure result (none, s) = (result, some (Error.sentinel Sentinel.simulation_failed), s)

unfoldable pub simulation_failed :
    Service → Ready → WithdrawalTrigger → FullExitSimulation → State → Outcome
simulation_failed service ready trigger simulation s =
    let result = failed_result simulation in
    after_failure result (
      record_attempt ready.repository
        (attempt_of service trigger result simulation simulation_failed_reason) s)

-- After a simulation that succeeded: wait for the pending withdrawal, or submit.
unfoldable pub execute_simulated :
    Service
    → Ready
    → WithdrawalTrigger
    → Address
    → FullExitRequest
    → FullExitSimulation
    → Option PendingWithdrawal
    → State
    → Outcome
execute_simulated service ready trigger signer_address request simulation none s =
    execute_submission service ready trigger signer_address request simulation s
execute_simulated service ready trigger signer_address request simulation (some pending) s =
    if is_waiting service pending
    then (waiting_result pending simulation, none, s)
    else execute_submission service ready trigger signer_address request simulation s

unfoldable pub execute_simulation :
    Service
    → Ready
    → WithdrawalTrigger
    → Address
    → FullExitRequest
    → FullExitSimulation × Option Error
    → State
    → Outcome
execute_simulation service ready trigger signer_address request (simulation, e) s =
    if not (is_none e) || not simulation.success
    then simulation_failed service ready trigger simulation s
    else execute_simulated service ready trigger signer_address request simulation s.pending s

unfoldable pub execute_position :
    Service → Ready → WithdrawalTrigger → PositionSnapshot → State → Outcome
execute_position service ready trigger position s = elim ready.signer.address [
  | err e ↦ fail (Error.wrapped "read signer address" e) s
  | ok signer_address ↦
      if not (signer_address == position.owner)
      then fail (Error.sentinel Sentinel.signer_owner_mismatch) s
      else let request = full_exit_request position in
        execute_simulation service ready trigger signer_address request
          (ready.adapter.simulate_full_exit request) s
]

abbrev pub noop_result : WithdrawalResult
noop_result = record no_result { status = WithdrawalStatus.noop; noop = true }

-- Nothing is pending any more once the no-op is stored.
abbrev after_noop : Option Error × State → Outcome
after_noop (some e, s) = fail e s
after_noop (none, s) = (noop_result, none, record s { pending = none })

unfoldable pub execute_noop : Service → Ready → WithdrawalTrigger → State → Outcome
execute_noop service ready trigger s =
    after_noop
      (record_attempt ready.repository (attempt_of service trigger noop_result no_simulation "") s)

unfoldable pub execute_ready : Service → Ready → WithdrawalTrigger → State → Outcome
execute_ready service ready trigger s = elim ready.adapter.position [
  | err e ↦ fail e s
  | ok position ↦
      if has_no_shares position.share_balance
      then execute_noop service ready trigger s
      else if has_negative_shares position.share_balance
      then fail (Error.message "share balance must be non-negative") s
      else execute_position service ready trigger position s
]

unfoldable pub execute_full_exit : Service → WithdrawalTrigger → State → Outcome
execute_full_exit service trigger s = elim (validate_execute_config service) [
  | err e ↦ fail e s
  | ok ready ↦ execute_ready service ready trigger s
]

unfoldable pub dry_run_full_exit : Service → Result WithdrawalResult
dry_run_full_exit service = do
  adapter ← required service.adapter "withdraw adapter is required"
  position ← adapter.position
  if has_no_shares position.share_balance
      then ok noop_result
      else (let (simulation, e) = adapter.simulate_full_exit (full_exit_request position) in
          elim e [
            | some e ↦ err e
            | none ↦ ok (record no_result {
              status = status_for_simulation simulation;
              gas_units = simulation.gas_units;
              expected_asset_units = simulation.expected_asset_units;
            })
          ])
