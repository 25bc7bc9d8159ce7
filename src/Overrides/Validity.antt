-- ===== src/Overrides/Validity.antt =====
-- internal/morpho/overrides.go: which thresholds the validation of a module reads.
use withdraw_bot.Prelude.{ℕ, ℤ, String, Option, none, some, ◌≡◌, refl, arith}
use withdraw_bot.Errors.{Error, Result, ok, err, ◌>>◌}
use withdraw_bot.Core.{
  MonitorModuleId, module_share_price_loss, module_withdraw_liquidity, module_vault_state,
}
use withdraw_bot.Config.Values.{ModuleConfig}
use withdraw_bot.Modules.SharePrice.{SharePriceModule, validate_share_price}
use withdraw_bot.Modules.Liquidity.{LiquidityModule, validate_liquidity}
use withdraw_bot.Vault.Reader.{VaultStateSnapshot}
use withdraw_bot.Modules.VaultState.{VaultStateModule, validate_vault_state}
use withdraw_bot.Overrides.Values.{error_of}
use withdraw_bot.Overrides.Apply.{MonitorModule}
use withdraw_bot.Overrides.Change.{
  share_price_thresholds, liquidity_thresholds, vault_state_thresholds,
}
use withdraw_bot.Factory.{
  Setup, Readers, share_price_of, liquidity_of, vault_state_of, build_share_price_module,
  build_liquidity_module, build_vault_state_module,
}
use withdraw_bot.Overrides.Commutation.{with_bps_of, with_idle_of, with_severity_of}

-- A module that runs: it was built from the configuration of its id, and its own validation
-- accepts it.
pub data Runs (setup : Setup) (config : ModuleConfig)
    : MonitorModuleId → MonitorModule → Type 0 where
  share_price :
      (m : SharePriceModule)
      → build_share_price_module setup.readers config ≡ ok m
      → validate_share_price m ≡ none
      → Runs setup config module_share_price_loss (MonitorModule.share_price m)
  liquidity :
      (m : LiquidityModule)
      → build_liquidity_module setup config ≡ ok m
      → validate_liquidity m ≡ none
      → Runs setup config module_withdraw_liquidity (MonitorModule.liquidity m)
  vault_state :
      (m : VaultStateModule)
      → build_vault_state_module setup config ≡ ok m
      → validate_vault_state m ≡ none
      → Runs setup config module_vault_state (MonitorModule.vault_state m)

-- The validation of the module accepts it.
abbrev pub Accepts : MonitorModule → Type 0
Accepts (MonitorModule.share_price m) = validate_share_price m ≡ none
Accepts (MonitorModule.liquidity m) = validate_liquidity m ≡ none
Accepts (MonitorModule.vault_state m) = validate_vault_state m ≡ none
Accepts _ = ⊥

-- A module that runs and one that is built for validation have the same thresholds.
pub same_bps :
    (readers : Readers) (b w u : Result ℤ) {m a : SharePriceModule}
    → share_price_of readers b w u ≡ ok m
    → share_price_thresholds w u ≡ ok a
    → with_bps_of m a ≡ m
same_bps readers (ok b) (ok w) (ok u) built checked = ground arith
same_bps readers (ok b) (ok w) (err e) built checked = cc
same_bps readers (ok b) (err e) u built checked = cc
same_bps readers (err e) w u built checked = cc

pub same_idle :
    (setup : Setup) (w u : Result ℕ) {m a : LiquidityModule}
    → liquidity_of setup w u ≡ ok m
    → liquidity_thresholds w u ≡ ok a
    → with_idle_of m a ≡ m
same_idle setup (ok w) (ok u) built checked = ground arith
same_idle setup (ok w) (err e) built checked = cc
same_idle setup (err e) u built checked = cc

pub same_severity :
    (readers : Readers) (b : Result VaultStateSnapshot) (s : Result String) {m a : VaultStateModule}
    → vault_state_of readers b s ≡ ok m
    → vault_state_thresholds s ≡ ok a
    → with_severity_of m a ≡ m
same_severity readers (ok b) (ok s) built checked = ground arith
same_severity readers (ok b) (err e) built checked = cc
same_severity readers (err e) s built checked = cc

-- The validation of a module reads its thresholds and what no override changes.
pub valid_bps :
    (m a : SharePriceModule)
    → validate_share_price m ≡ none
    → validate_share_price a ≡ none
    → validate_share_price (with_bps_of m a) ≡ none
unfolding validate_share_price
valid_bps m a hm ha = ground arith

pub valid_idle :
    (m a : LiquidityModule)
    → validate_liquidity m ≡ none
    → validate_liquidity a ≡ none
    → validate_liquidity (with_idle_of m a) ≡ none
unfolding validate_liquidity
valid_idle m a hm ha = ground arith

pub valid_severity :
    (m a : VaultStateModule)
    → validate_vault_state m ≡ none
    → validate_vault_state a ≡ none
    → validate_vault_state (with_severity_of m a) ≡ none
unfolding validate_vault_state
valid_severity m a hm ha = ground arith

pub checked_validates :
    {M : Type 0} (v : Option Error) (n : M) → error_of (v >> ok n) ≡ none → v ≡ none
checked_validates none n h = refl
checked_validates (some x) n h = cc
