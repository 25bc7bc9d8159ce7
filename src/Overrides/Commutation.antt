-- ===== src/Overrides/Commutation.antt =====
-- internal/morpho/overrides.go: an override of a module commutes with a change of its other fields.
use withdraw_bot.Prelude.{ℕ, ℤ, String, Option, List, [], ◌∷◌, ◌≡◌, refl, arith}
use withdraw_bot.Errors.{Error, Result, ok, err, ◌>>=◌, ◌>>◌}
use withdraw_bot.Core.{
  Severity, ThresholdOverride, module_share_price_loss, module_withdraw_liquidity,
}
use withdraw_bot.Modules.SharePrice.{SharePriceModule}
use withdraw_bot.Modules.Liquidity.{LiquidityModule}
use withdraw_bot.Modules.VaultState.{VaultStateModule}
use withdraw_bot.Overrides.Values.{
  severity_of, validate_threshold_value, parse_threshold_bps, parse_threshold_asset_units,
}
use withdraw_bot.Overrides.Apply.{
  override_all, set_bps, set_idle, set_severity, override_share_price, override_liquidity,
  override_vault_state,
}

-- A change of the module that commutes with one override commutes with all.
module _ {M : Type 0} (step : M → ThresholdOverride → Result M) (change : M → M) where
  abbrev pub Commutes : Type 0
  Commutes = (m : M) (o : ThresholdOverride) → step (change m) o ≡ (step m o >>= λ n. ok (change n))

  pub override_all-commutes :
      Commutes
      → (m : M) (os : List ThresholdOverride)
      → override_all step (change m) os ≡ (override_all step m os >>= λ n. ok (change n))
  override_all-commutes h m [] = refl
  override_all-commutes h m (o ∷ os) =
      rw (h m o)
        (elim (step m o)
          as (λ r.
            ((r >>= λ n. ok (change n)) >>= λ n. override_all step n os)
            ≡ ((r >>= λ n. override_all step n os) >>= λ n. ok (change n))) [
              | ok n ↦ override_all-commutes h n os
              | err e ↦ refl
            ])

-- The thresholds of one module in another.
abbrev pub with_bps_of : SharePriceModule → SharePriceModule → SharePriceModule
with_bps_of m a = record m { warn_bps = a.warn_bps; urgent_bps = a.urgent_bps }

abbrev pub with_idle_of : LiquidityModule → LiquidityModule → LiquidityModule
with_idle_of m a = record m { idle_warn = a.idle_warn; idle_urgent = a.idle_urgent }

abbrev pub with_severity_of : VaultStateModule → VaultStateModule → VaultStateModule
with_severity_of m a = record m { change_severity = a.change_severity }

set_bps-with_bps_of :
    (m a : SharePriceModule) (v : Option Error) (key : String) (parsed : Result ℤ)
    → (v >> set_bps (with_bps_of m a) key parsed)
      ≡ ((v >> set_bps a key parsed) >>= λ n. ok (with_bps_of m n))
set_bps-with_bps_of m a v key parsed = ground arith

set_idle-with_idle_of :
    (m a : LiquidityModule) (v : Option Error) (key : String) (parsed : Result ℕ)
    → (v >> set_idle (with_idle_of m a) key parsed)
      ≡ ((v >> set_idle a key parsed) >>= λ n. ok (with_idle_of m n))
set_idle-with_idle_of m a v key parsed = ground arith

set_severity-with_severity_of :
    (m a : VaultStateModule) (v : Option Error) (key : String) (severity : Severity)
    → (v >> ok (set_severity (with_severity_of m a) key severity))
      ≡ ((v >> ok (set_severity a key severity)) >>= λ n. ok (with_severity_of m n))
set_severity-with_severity_of m a v key severity = ground arith

pub bps_commutes : (m : SharePriceModule) → Commutes override_share_price (with_bps_of m)
unfolding override_share_price
bps_commutes m a o =
    set_bps-with_bps_of m a (validate_threshold_value o.module_id o.key o.value 0) o.key
      (parse_threshold_bps module_share_price_loss o.key o.value)

pub idle_commutes :
    (decimals : ℕ) (m : LiquidityModule) → Commutes (override_liquidity decimals) (with_idle_of m)
unfolding override_liquidity
idle_commutes decimals m a o =
    set_idle-with_idle_of m a (validate_threshold_value o.module_id o.key o.value decimals) o.key
      (parse_threshold_asset_units module_withdraw_liquidity o.key o.value decimals)

pub severity_commutes : (m : VaultStateModule) → Commutes override_vault_state (with_severity_of m)
unfolding override_vault_state
severity_commutes m a o =
    set_severity-with_severity_of m a (validate_threshold_value o.module_id o.key o.value 0) o.key
      (severity_of o.value)
