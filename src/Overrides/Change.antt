-- ===== src/Overrides/Change.antt =====
-- internal/morpho/overrides.go: the validation of a change of a threshold.
use withdraw_bot.Prelude.{
  ℕ, ℤ, pos, String, false, ◌&&◌, Option, none, some, List, [], ◌∷◌, str_eq, if◌then◌else◌,
}
use withdraw_bot.Errors.{Error, Result, ok, ◌>>=◌, ◌>>◌}
use withdraw_bot.Core.{
  MonitorModuleId, ThresholdOverride, module_share_price_loss, module_withdraw_liquidity,
  module_vault_state,
}
use withdraw_bot.Config.Values.{ModuleConfig, module_int64, module_string, module_decimal_units}
use withdraw_bot.Modules.SharePrice.{SharePriceModule, validate_share_price}
use withdraw_bot.Modules.Liquidity.{ExitSimulator, LiquidityModule, validate_liquidity}
use withdraw_bot.Modules.VaultState.{VaultStateModule, validate_vault_state}
use withdraw_bot.Vault.Reader.{VaultStateSnapshot}
use withdraw_bot.Overrides.Values.{
  key_loss_warn_bps, key_loss_urgent_bps, key_idle_warn, key_idle_urgent, key_change_severity,
  error_of, validate_threshold_value, severity_of,
}
use withdraw_bot.Overrides.Apply.{
  apply_share_price_overrides, apply_liquidity_overrides, apply_vault_state_overrides,
}

-- The first override of the module and key gets the value; if there is none, one is added.
unfoldable pub upsert_override :
    List ThresholdOverride → String → String → String → List ThresholdOverride
upsert_override [] module_id key value =
    record { module_id = module_id; key = key; value = value } ∷ []
upsert_override (o ∷ os) module_id key value =
    let below = upsert_override os module_id key value in
    if str_eq o.module_id module_id && str_eq o.key key
    then record o { value = value } ∷ os
    else o ∷ below

-- The modules that only validation uses, with readers that answer at once, from what the readers of
-- the configuration answer. Their times are not read.
abbrev pub share_price_thresholds : Result ℤ → Result ℤ → Result SharePriceModule
share_price_thresholds read_warn read_urgent = do
  warn ← read_warn
  urgent ← read_urgent
  ok (record {
    baseline_share_price = some (pos 1);
    previous_share_price = none;
    warn_bps = warn;
    urgent_bps = urgent;
    reader = some (ok (some (pos 1)));
    now = pos 0;
  })

-- `core.PositionSnapshot{}` and `core.FullExitSimulation{}`
abbrev pub no_exit_simulator : ExitSimulator
no_exit_simulator = record {
  position = ok (record {
    vault = 0;
    owner = 0;
    receiver = 0;
    share_balance = none;
    asset_symbol = "";
    asset_decimals = 0;
    observed_at = pos 0;
  });
  simulate_full_exit = λ request.
      ok (record {
        success = false;
        expected_asset_units = none;
        gas_units = 0;
        revert_reason = "";
      });
}

abbrev pub liquidity_thresholds : Result ℕ → Result ℕ → Result LiquidityModule
liquidity_thresholds read_warn read_urgent = do
  warn ← read_warn
  urgent ← read_urgent
  ok (record {
    idle_asset_reader = some (λ vault. ok (some (pos 1)));
    exit_simulator = some no_exit_simulator;
    owner = 1;
    receiver = 2;
    vault = 3;
    idle_warn = some (pos warn);
    idle_urgent = some (pos urgent);
    now = pos 0;
  })

-- `VaultStateSnapshot{}`
abbrev pub no_snapshot : VaultStateSnapshot
no_snapshot = record {
  owner = "";
  curator = "";
  receive_shares_gate = "";
  send_shares_gate = "";
  receive_assets_gate = "";
  send_assets_gate = "";
  adapter_registry = "";
  liquidity_adapter = "";
  liquidity_data_hex = "";
  performance_fee = "";
  performance_fee_recipient = "";
  management_fee = "";
  management_fee_recipient = "";
  max_rate = "";
  adapters = [];
  allocator_roles = [];
  sentinel_roles = [];
  timelocks = [];
  abdicated = [];
  force_deallocate_penalties = [];
}

abbrev pub vault_state_thresholds : Result String → Result VaultStateModule
vault_state_thresholds read_severity = do
  severity ← read_severity
  ok (record {
    reader = some (ok no_snapshot);
    baseline = no_snapshot;
    change_severity = severity_of severity;
    now = pos 0;
  })

unfoldable pub share_price_threshold_config : ModuleConfig → Result SharePriceModule
unfolding module_int64
share_price_threshold_config config =
    share_price_thresholds (module_int64 config module_share_price_loss key_loss_warn_bps)
      (module_int64 config module_share_price_loss key_loss_urgent_bps)

unfoldable pub liquidity_threshold_config : ModuleConfig → ℕ → Result LiquidityModule
unfolding module_decimal_units
liquidity_threshold_config config decimals =
    liquidity_thresholds
      (module_decimal_units config module_withdraw_liquidity key_idle_warn decimals)
      (module_decimal_units config module_withdraw_liquidity key_idle_urgent decimals)

unfoldable pub vault_state_threshold_config : ModuleConfig → Result VaultStateModule
unfolding module_string
vault_state_threshold_config config =
    vault_state_thresholds (module_string config module_vault_state key_change_severity)

-- A module is read from the configuration, overridden and validated.
abbrev pub check_effective {ℓ} :
    {M : Type ℓ} → Result M → (M → Result M) → (M → Option Error) → Option Error
check_effective read override validate =
    error_of (read >>= λ m. (override m >>= λ effective. (validate effective >> ok effective)))

-- The check of the thresholds that the overrides make effective.
unfoldable pub validate_effective :
    MonitorModuleId → ModuleConfig → List ThresholdOverride → ℕ → Option Error
unfolding share_price_threshold_config liquidity_threshold_config vault_state_threshold_config
    apply_share_price_overrides apply_liquidity_overrides apply_vault_state_overrides
    validate_share_price validate_liquidity validate_vault_state
validate_effective id config overrides decimals =
    if str_eq id module_share_price_loss
    then check_effective (share_price_threshold_config config)
        (λ m. apply_share_price_overrides m overrides) validate_share_price
    else (if str_eq id module_withdraw_liquidity
        then check_effective (liquidity_threshold_config config decimals)
            (λ m. apply_liquidity_overrides m overrides decimals) validate_liquidity
        else (if str_eq id module_vault_state
            then check_effective (vault_state_threshold_config config)
                (λ m. apply_vault_state_overrides m overrides) validate_vault_state
            else none))

abbrev pub validate_with_config :
    MonitorModuleId → Option ModuleConfig → List ThresholdOverride → ℕ → Option Error
validate_with_config id none overrides decimals = none
validate_with_config id (some config) overrides decimals =
    validate_effective id config overrides decimals

-- `ValidateThresholdChange`; the configuration of a module that is not configured is nil.
unfoldable pub validate_threshold_change :
    String → String → String → Option ModuleConfig → List ThresholdOverride → ℕ → Option Error
unfolding validate_threshold_value validate_effective upsert_override
validate_threshold_change module_id key value config overrides decimals =
    elim (validate_threshold_value module_id key value decimals) [
      | some e ↦ some e
      | none ↦
          validate_with_config module_id config (upsert_override overrides module_id key value)
            decimals
    ]
