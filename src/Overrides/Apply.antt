-- ===== src/Overrides/Apply.antt =====
-- internal/morpho/overrides.go: the overrides are applied to a module.
use withdraw_bot.Prelude.{
  ℕ, ℤ, pos, String, Option, none, some, List, [], ◌∷◌, str_eq, if◌then◌else◌,
}
use withdraw_bot.Errors.{Result, ok, ◌>>=◌, ◌>>◌}
use withdraw_bot.Core.{
  MonitorModuleId, Severity, ThresholdOverride, module_share_price_loss, module_withdraw_liquidity,
  module_vault_state,
}
use withdraw_bot.Modules.SharePrice.{SharePriceModule}
use withdraw_bot.Modules.Liquidity.{LiquidityModule}
use withdraw_bot.Modules.VaultState.{VaultStateModule}
use withdraw_bot.Overrides.Values.{
  key_loss_warn_bps, key_loss_urgent_bps, key_idle_warn, key_idle_urgent, key_change_severity,
  parse_threshold_bps, parse_threshold_asset_units, validate_threshold_value, severity_of,
}

abbrev pub overrides_for_module : MonitorModuleId → List ThresholdOverride → List ThresholdOverride
overrides_for_module module_id [] = []
overrides_for_module module_id (o ∷ os) =
    let below = overrides_for_module module_id os in
    if str_eq o.module_id module_id then o ∷ below else below

-- The `switch` on the key, with what the parser says of the value.
abbrev pub set_bps : SharePriceModule → String → Result ℤ → Result SharePriceModule
set_bps m key parsed =
    if str_eq key key_loss_warn_bps
    then (parsed >>= λ bps. ok (record m { warn_bps = bps }))
    else (if str_eq key key_loss_urgent_bps
        then (parsed >>= λ bps. ok (record m { urgent_bps = bps }))
        else ok m)

abbrev pub set_idle : LiquidityModule → String → Result ℕ → Result LiquidityModule
set_idle m key parsed =
    if str_eq key key_idle_warn
    then (parsed >>= λ units. ok (record m { idle_warn = some (pos units) }))
    else (if str_eq key key_idle_urgent
        then (parsed >>= λ units. ok (record m { idle_urgent = some (pos units) }))
        else ok m)

abbrev pub set_severity : VaultStateModule → String → Severity → VaultStateModule
set_severity m key severity =
    if str_eq key key_change_severity then record m { change_severity = severity } else m

-- One override of each loop.
unfoldable pub override_share_price : SharePriceModule → ThresholdOverride → Result SharePriceModule
unfolding validate_threshold_value parse_threshold_bps
override_share_price m o =
    validate_threshold_value o.module_id o.key o.value 0
    >> set_bps m o.key (parse_threshold_bps module_share_price_loss o.key o.value)

unfoldable pub override_liquidity : ℕ → LiquidityModule → ThresholdOverride → Result LiquidityModule
unfolding validate_threshold_value parse_threshold_asset_units
override_liquidity decimals m o =
    validate_threshold_value o.module_id o.key o.value decimals
    >> set_idle m o.key
        (parse_threshold_asset_units module_withdraw_liquidity o.key o.value decimals)

unfoldable pub override_vault_state : VaultStateModule → ThresholdOverride → Result VaultStateModule
unfolding validate_threshold_value
override_vault_state m o =
    validate_threshold_value o.module_id o.key o.value 0
    >> ok (set_severity m o.key (severity_of o.value))

-- The loops: one override after the other, up to the first error.
abbrev pub override_all {ℓ} :
    {M : Type ℓ} → (M → ThresholdOverride → Result M) → M → List ThresholdOverride → Result M
override_all step m [] = ok m
override_all step m (o ∷ os) = step m o >>= λ changed. override_all step changed os

unfoldable pub apply_share_price_overrides :
    SharePriceModule → List ThresholdOverride → Result SharePriceModule
unfolding override_share_price
apply_share_price_overrides m overrides =
    override_all override_share_price m (overrides_for_module module_share_price_loss overrides)

unfoldable pub apply_liquidity_overrides :
    LiquidityModule → List ThresholdOverride → ℕ → Result LiquidityModule
unfolding override_liquidity
apply_liquidity_overrides m overrides decimals =
    override_all (override_liquidity decimals) m
      (overrides_for_module module_withdraw_liquidity overrides)

unfoldable pub apply_vault_state_overrides :
    VaultStateModule → List ThresholdOverride → Result VaultStateModule
unfolding override_vault_state
apply_vault_state_overrides m overrides =
    override_all override_vault_state m (overrides_for_module module_vault_state overrides)

-- The dynamic types that `ApplyOverrides` tells apart; a pointer may be nil. A module of another
-- type is given by its id.
pub data MonitorModule : Type 0 where
  share_price : SharePriceModule → MonitorModule
  share_price_pointer : Option SharePriceModule → MonitorModule
  liquidity : LiquidityModule → MonitorModule
  liquidity_pointer : Option LiquidityModule → MonitorModule
  vault_state : VaultStateModule → MonitorModule
  vault_state_pointer : Option VaultStateModule → MonitorModule
  foreign : MonitorModuleId → MonitorModule

unfoldable pub apply_overrides : MonitorModule → List ThresholdOverride → ℕ → Result MonitorModule
unfolding apply_share_price_overrides apply_liquidity_overrides apply_vault_state_overrides
apply_overrides (MonitorModule.share_price m) overrides decimals =
    apply_share_price_overrides m overrides >>= λ changed. ok (MonitorModule.share_price changed)
apply_overrides (MonitorModule.share_price_pointer none) overrides decimals =
    ok (MonitorModule.share_price_pointer none)
apply_overrides (MonitorModule.share_price_pointer (some m)) overrides decimals =
    apply_share_price_overrides m overrides >>= λ changed. ok (MonitorModule.share_price changed)
apply_overrides (MonitorModule.liquidity m) overrides decimals =
    apply_liquidity_overrides m overrides decimals >>= λ changed.
    ok (MonitorModule.liquidity changed)
apply_overrides (MonitorModule.liquidity_pointer none) overrides decimals =
    ok (MonitorModule.liquidity_pointer none)
apply_overrides (MonitorModule.liquidity_pointer (some m)) overrides decimals =
    apply_liquidity_overrides m overrides decimals >>= λ changed.
    ok (MonitorModule.liquidity changed)
apply_overrides (MonitorModule.vault_state m) overrides decimals =
    apply_vault_state_overrides m overrides >>= λ changed. ok (MonitorModule.vault_state changed)
apply_overrides (MonitorModule.vault_state_pointer none) overrides decimals =
    ok (MonitorModule.vault_state_pointer none)
apply_overrides (MonitorModule.vault_state_pointer (some m)) overrides decimals =
    apply_vault_state_overrides m overrides >>= λ changed. ok (MonitorModule.vault_state changed)
apply_overrides (MonitorModule.foreign id) overrides decimals = ok (MonitorModule.foreign id)
