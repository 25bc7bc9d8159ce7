-- ===== src/Modules/Liquidity.antt =====
-- internal/monitor/modules/morpho/withdraw_liquidity.go: the module that watches the idle assets of
-- the vault and simulates the full exit.
use withdraw_bot.Prelude.{
  ℤ, pos, String, Bool, false, not, Option, none, some, List, [], ◌∷◌, ◌++◌, ◌==◌, is_positive,
  is_negative, ltb_ℤ, decimal, ◌<>◌, if◌then◌else◌,
}
use withdraw_bot.Errors.{Error, Result, ok, err, ◌>>=◌, ◌>>◌, fail_if, ◌orelse◌, is_none}
use withdraw_bot.Core.{
  Address, Time, Severity, MonitorStatus, Finding, MonitorResult, PositionSnapshot, FullExitRequest,
  FullExitSimulation, module_withdraw_liquidity, finding_idle_liquidity, finding_exit_simulation,
}

-- What the exit simulator answers in one call.
pub record ExitSimulator : Type 0 where
  pub position : Result PositionSnapshot
  pub simulate_full_exit : FullExitRequest → Result FullExitSimulation

-- `idle_asset_reader` is what the reader answers for a vault; the amount may be nil.
pub record LiquidityModule : Type 0 where
  pub idle_asset_reader : Option (Address → Result (Option ℤ))
  pub exit_simulator : Option ExitSimulator
  pub owner : Address
  pub receiver : Address
  pub vault : Address
  pub idle_warn : Option ℤ
  pub idle_urgent : Option ℤ
  pub now : Time

abbrev about_liquidity : String → Error
about_liquidity text = Error.message (module_withdraw_liquidity <> text)

abbrev pub is_positive_amount : Option ℤ → Bool
is_positive_amount none = false
is_positive_amount (some amount) = is_positive amount

-- `a.Cmp(b) < 0`, of amounts that are set.
abbrev pub is_below : Option ℤ → Option ℤ → Bool
is_below (some a) (some b) = ltb_ℤ a b
is_below _ _ = false

unfoldable pub validate_liquidity : LiquidityModule → Option Error
validate_liquidity m =
    fail_if (is_none m.idle_asset_reader) (about_liquidity " idle asset reader is required")
    orelse fail_if (is_none m.exit_simulator) (about_liquidity " exit simulator is required")
    orelse fail_if (m.owner == 0) (about_liquidity " owner address is required")
    orelse fail_if (m.receiver == 0) (about_liquidity " receiver address is required")
    orelse fail_if (m.vault == 0) (about_liquidity " vault address is required")
    orelse fail_if (not (is_positive_amount m.idle_warn))
        (about_liquidity " idle_warn_threshold_usdc must be positive")
    orelse fail_if (not (is_positive_amount m.idle_urgent))
        (about_liquidity " idle_urgent_threshold_usdc must be positive")
    orelse fail_if (is_below m.idle_warn m.idle_urgent)
        (about_liquidity " warn threshold must be greater than or equal to urgent threshold")

-- The amount, if it is set and not negative.
abbrev pub not_negative : Option ℤ → Result ℤ
not_negative none = err (about_liquidity " idle assets must be non-negative")
not_negative (some idle) =
    if is_negative idle then err (about_liquidity " idle assets must be non-negative") else ok idle

-- The idle assets of the vault, if they are set and not negative. A module with no reader is
-- refused before.
abbrev pub read_idle : Option (Address → Result (Option ℤ)) → Address → Result ℤ
read_idle none vault = err (Error.message "nil reader")
read_idle (some read) vault = do idle ← read vault; not_negative idle

unfoldable pub validate_position : LiquidityModule → PositionSnapshot → Option Error
validate_position m position =
    fail_if (not (position.vault == m.vault)) (about_liquidity " position vault mismatch")
    orelse fail_if (not (position.owner == m.owner)) (about_liquidity " position owner mismatch")
    orelse fail_if (not (position.receiver == m.receiver))
        (about_liquidity " position receiver mismatch")

-- The share balance, if it is set and positive.
abbrev pub positive_balance : Option ℤ → Result ℤ
positive_balance none = err (about_liquidity " share_balance must be positive")
positive_balance (some balance) =
    if is_positive balance
    then ok balance
    else err (about_liquidity " share_balance must be positive")

-- A simulation that returns an error is one that failed.
abbrev pub simulation_or_failed : Result FullExitSimulation → FullExitSimulation
simulation_or_failed (ok simulation) = simulation
simulation_or_failed (err _) = record {
  success = false;
  expected_asset_units = none;
  gas_units = 0;
  revert_reason = "";
}

-- The simulation of the exit of the whole position.
unfoldable pub simulate_with : LiquidityModule → ExitSimulator → Result FullExitSimulation
unfolding validate_position
simulate_with m simulator = do
  position ← simulator.position
  balance ← positive_balance position.share_balance
  validate_position m position
      >> ok (
          simulation_or_failed (
            simulator.simulate_full_exit (record {
              vault = m.vault;
              owner = m.owner;
              receiver = m.receiver;
              shares = some balance;
            })))

-- A module with no simulator is refused before.
unfoldable pub simulate_position :
    LiquidityModule → Option ExitSimulator → Result FullExitSimulation
unfolding simulate_with
simulate_position m none = err (Error.message "nil simulator")
simulate_position m (some simulator) = simulate_with m simulator

-- The assets that the exit gives, 0 if a simulation that failed does not tell.
unfoldable pub expected_exit : FullExitSimulation → Result ℤ
expected_exit simulation = elim simulation.expected_asset_units [
  | some units ↦
      if is_negative units
      then err (about_liquidity " expected exit assets must be non-negative")
      else ok units
  | none ↦
      if simulation.success
      then err (about_liquidity " expected_exit_assets is required for successful simulation")
      else ok (pos 0)
]

-- `big.Int.String` of a pointer.
abbrev decimal_of : Option ℤ → String
decimal_of none = "<nil>"
decimal_of (some n) = decimal n

abbrev pub idle_liquidity_finding : LiquidityModule → Severity → ℤ → Finding
idle_liquidity_finding m severity idle = record {
  key = finding_idle_liquidity;
  severity = severity;
  message = "idle liquidity crossed threshold";
  evidence =
      ("idle_assets", decimal idle)
      ∷ ("idle_warn_threshold_usdc", decimal_of m.idle_warn)
      ∷ ("idle_urgent_threshold_usdc", decimal_of m.idle_urgent)
      ∷ [];
}

abbrev exit_simulation_finding : ℤ → Finding
exit_simulation_finding expected = record {
  key = finding_exit_simulation;
  severity = Severity.urgent;
  message = "full-exit simulation failed";
  evidence = ("expected_exit_assets", decimal expected) ∷ ("simulation_success", "false") ∷ [];
}

unfoldable pub rate_idle : LiquidityModule → ℤ → MonitorStatus × List Finding
rate_idle m idle =
    if is_below (some idle) m.idle_urgent
    then (MonitorStatus.urgent, idle_liquidity_finding m Severity.urgent idle ∷ [])
    else (if is_below (some idle) m.idle_warn
        then (MonitorStatus.warn, idle_liquidity_finding m Severity.warn idle ∷ [])
        else (MonitorStatus.ok, []))

-- A simulation that failed makes the status urgent.
unfoldable pub rate_exit : MonitorStatus × List Finding → Bool → ℤ → MonitorStatus × List Finding
rate_exit rated success expected =
    if success
    then rated
    else (MonitorStatus.urgent, rated.1 ++ (exit_simulation_finding expected ∷ []))

-- The result for the idle assets and for a simulation with the assets that it expects.
unfoldable pub report_liquidity : LiquidityModule → ℤ → Bool → ℤ → MonitorResult
unfolding rate_idle rate_exit
report_liquidity m idle success expected =
    let (status, findings) = rate_exit (rate_idle m idle) success expected in
    record {
      module_id = module_withdraw_liquidity;
      status = status;
      observed_at = m.now;
      metrics =
          record { key = "idle_assets"; value = decimal idle; unit = "asset_units" }
          ∷ record { key = "expected_exit_assets"; value = decimal expected; unit = "asset_units" }
          ∷ [];
      findings = findings;
    }

unfoldable pub monitor_liquidity : LiquidityModule → Result MonitorResult
unfolding validate_liquidity simulate_position expected_exit report_liquidity
monitor_liquidity m = validate_liquidity m >> (do
  idle ← read_idle m.idle_asset_reader m.vault
  simulation ← simulate_position m m.exit_simulator
  expected ← expected_exit simulation
  ok (report_liquidity m idle simulation.success expected))
