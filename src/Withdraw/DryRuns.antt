-- ===== src/Withdraw/DryRuns.antt =====
-- internal/withdraw/service.go: `DryRunFullExit` beside the execution that it previews.
use withdraw_bot.Prelude.{true, ◌&&◌, Option, none, some, ◌≡◌, subst, ◌↔◌, arith}
use withdraw_bot.Errors.{Error, Result, ok, err, is_none}
use withdraw_bot.Core.{FullExitSimulation}
use withdraw_bot.Withdraw.Types.{WithdrawalStatus, WithdrawalResult}
use withdraw_bot.Withdraw.Attempts.{status_for_simulation, no_result}
use withdraw_bot.Withdraw.Outcomes.{simulated}

-- The result of a dry run for a simulation.
abbrev previewed : FullExitSimulation → WithdrawalResult
previewed simulation = record no_result {
  status = status_for_simulation simulation;
  gas_units = simulation.gas_units;
  expected_asset_units = simulation.expected_asset_units;
}

abbrev preview : FullExitSimulation × Option Error → Result WithdrawalResult
preview (simulation, none) = ok (previewed simulation)
preview (simulation, some e) = err e

status-simulated :
    (s : FullExitSimulation)
    → (status_for_simulation s ≡ WithdrawalStatus.simulated) ↔ (s.success ≡ true)
unfolding status_for_simulation
status-simulated s = (λ h. ground arith, λ h. ground arith)

success :
    (answer : FullExitSimulation × Option Error) {result : WithdrawalResult}
    → answer.1 ≡ none
    → previewed answer.0 ≡ result
    → (result.status ≡ WithdrawalStatus.simulated) ↔ ((is_none answer.1 && answer.0.success) ≡ true)
success (simulation, none) e same =
    subst
      (λ (r : WithdrawalResult).
        (r.status ≡ WithdrawalStatus.simulated) ↔ (simulation.success ≡ true))
      same (status-simulated simulation)
success (simulation, some x) e same = cc
