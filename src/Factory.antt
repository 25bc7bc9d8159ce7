-- ===== src/Factory.antt =====
-- internal/morpho/factory.go: the modules that a configuration asks for.
pub mod Slots
use withdraw_bot.Prelude.{
  ℕ, ℤ, pos, String, Bool, ◌||◌, ◌&&◌, not, Option, none, some, List, [], ◌∷◌, str_eq, ◌++◌, ◌<>◌,
}
use withdraw_bot.Errors.{Error, Result, ok, err, ◌>>=◌, ◌>>◌, fail_if, ◌orelse◌}
use withdraw_bot.Core.{
  Address, Time, MonitorModuleId, module_share_price_loss, module_withdraw_liquidity,
  module_vault_state,
}
use withdraw_bot.Config.Values.{
  Value, ModuleConfig, module_enabled, enabled_module_config, module_int64, module_string,
  module_big_int, module_decimal_units, module_struct,
}
use withdraw_bot.Modules.SharePrice.{SharePriceModule}
use withdraw_bot.Modules.Liquidity.{ExitSimulator, LiquidityModule}
use withdraw_bot.Modules.VaultState.{VaultStateModule}
use withdraw_bot.Vault.Reader.{VaultStateSnapshot}
use withdraw_bot.Overrides.Values.{
  key_baseline_share_price, key_baseline, key_loss_warn_bps, key_loss_urgent_bps, key_idle_warn,
  key_idle_urgent, key_change_severity, severity_of,
}
use withdraw_bot.Overrides.Apply.{MonitorModule}

-- What the vault reader and the clock answer to the modules.
pub record Readers : Type 0 where
  pub share_price : Result (Option ℤ)
  pub idle_assets : Address → Result (Option ℤ)
  pub vault_state : Result VaultStateSnapshot
  pub now : Time

-- The configuration of the modules, and what BuildModules is given besides. `decode_snapshot` is the
-- way of a value through YAML and JSON into a snapshot.
pub record Setup : Type 0 where
  pub modules : List (String × ModuleConfig)
  pub asset_decimals : ℕ
  pub readers : Readers
  pub exit_simulator : Option ExitSimulator
  pub vault : Address
  pub owner : Address
  pub receiver : Address
  pub decode_snapshot : Value → Result VaultStateSnapshot

abbrev pub is_known_module : MonitorModuleId → Bool
is_known_module id =
    str_eq id module_share_price_loss
    || str_eq id module_withdraw_liquidity
    || str_eq id module_vault_state

abbrev pub refuse_unknown : MonitorModuleId → Bool → Option Error
refuse_unknown id enabled =
    fail_if (enabled && not (is_known_module id))
      (Error.message ("unknown enabled module \"" <> id <> "\""))

-- The loop over the configured modules. Go ranges over the map in any order, which the list stands for.
unfoldable pub validate_module_configs : List (String × ModuleConfig) → Option Error
unfolding module_enabled
validate_module_configs [] = none
validate_module_configs ((id, config) ∷ rest) =
    let below = validate_module_configs rest in
    elim (module_enabled config id) [
      | err e ↦ some e
      | ok enabled ↦ refuse_unknown id enabled orelse below
    ]

-- The modules, from what the readers of the configuration answer.
abbrev pub share_price_of : Readers → Result ℤ → Result ℤ → Result ℤ → Result SharePriceModule
share_price_of readers read_baseline read_warn read_urgent = do
  baseline ← read_baseline
  warn ← read_warn
  urgent ← read_urgent
  ok (record {
    baseline_share_price = some baseline;
    previous_share_price = none;
    warn_bps = warn;
    urgent_bps = urgent;
    reader = some readers.share_price;
    now = readers.now;
  })

abbrev pub liquidity_of : Setup → Result ℕ → Result ℕ → Result LiquidityModule
liquidity_of setup read_warn read_urgent = do
  warn ← read_warn
  urgent ← read_urgent
  ok (record {
    idle_asset_reader = some setup.readers.idle_assets;
    exit_simulator = setup.exit_simulator;
    owner = setup.owner;
    receiver = setup.receiver;
    vault = setup.vault;
    idle_warn = some (pos warn);
    idle_urgent = some (pos urgent);
    now = setup.readers.now;
  })

abbrev pub vault_state_of :
    Readers → Result VaultStateSnapshot → Result String → Result VaultStateModule
vault_state_of readers read_baseline read_severity = do
  baseline ← read_baseline
  severity ← read_severity
  ok (record {
    reader = some readers.vault_state;
    baseline = baseline;
    change_severity = severity_of severity;
    now = readers.now;
  })

unfoldable pub build_share_price_module : Readers → ModuleConfig → Result SharePriceModule
unfolding module_big_int module_int64
build_share_price_module readers config =
    share_price_of readers (module_big_int config module_share_price_loss key_baseline_share_price)
      (module_int64 config module_share_price_loss key_loss_warn_bps)
      (module_int64 config module_share_price_loss key_loss_urgent_bps)

unfoldable pub build_liquidity_module : Setup → ModuleConfig → Result LiquidityModule
unfolding module_decimal_units
build_liquidity_module setup config =
    liquidity_of setup
      (module_decimal_units config module_withdraw_liquidity key_idle_warn setup.asset_decimals)
      (module_decimal_units config module_withdraw_liquidity key_idle_urgent setup.asset_decimals)

unfoldable pub build_vault_state_module : Setup → ModuleConfig → Result VaultStateModule
unfolding module_struct module_string
build_vault_state_module setup config =
    vault_state_of setup.readers
      (module_struct setup.decode_snapshot config module_vault_state key_baseline)
      (module_string config module_vault_state key_change_severity)

-- One module, if its configuration is there and enabled.
abbrev pub build_enabled :
    (ModuleConfig → Result MonitorModule) → Option ModuleConfig → Result (List MonitorModule)
build_enabled build none = ok []
build_enabled build (some config) = build config >>= λ m. ok (m ∷ [])

abbrev pub build_configured :
    List (String × ModuleConfig)
    → MonitorModuleId
    → (ModuleConfig → Result MonitorModule)
    → Result (List MonitorModule)
build_configured modules id build =
    enabled_module_config modules id >>= λ config. build_enabled build config

abbrev pub build_share_price : Setup → ModuleConfig → Result MonitorModule
build_share_price setup config =
    build_share_price_module setup.readers config >>= λ m. ok (MonitorModule.share_price m)

abbrev pub build_liquidity : Setup → ModuleConfig → Result MonitorModule
build_liquidity setup config =
    build_liquidity_module setup config >>= λ m. ok (MonitorModule.liquidity m)

abbrev pub build_vault_state : Setup → ModuleConfig → Result MonitorModule
build_vault_state setup config =
    build_vault_state_module setup config >>= λ m. ok (MonitorModule.vault_state m)

-- `BuildModules`
unfoldable pub build_modules : Setup → Result (List MonitorModule)
unfolding validate_module_configs enabled_module_config build_share_price_module
    build_liquidity_module build_vault_state_module
build_modules setup =
    validate_module_configs setup.modules
    >> (build_configured setup.modules module_share_price_loss (build_share_price setup)
        >>= λ prices.
            (build_configured setup.modules module_withdraw_liquidity (build_liquidity setup)
              >>= λ liquidity.
                  (build_configured setup.modules module_vault_state (build_vault_state setup)
                    >>= λ state. ok (prices ++ (liquidity ++ state)))))
