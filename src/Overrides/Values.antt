-- ===== src/Overrides/Values.antt =====
-- internal/morpho/overrides.go: the values of the thresholds.
use withdraw_bot.Prelude.{
  ℕ, ℤ, pos, String, ◌||◌, ◌&&◌, not, Option, none, some, str_eq, codes, leb_ℤ, ◌==◌, ◌<>◌,
  if◌then◌else◌,
}
use withdraw_bot.Errors.{Error, Result, ok, err, ◌>>=◌, fail_if, is_none}
use withdraw_bot.Core.{MonitorModuleId, Severity}
use withdraw_bot.Config.{validate_bps, parse_decimal_units}
use withdraw_bot.Config.Values.{about_field, parse_int64}

abbrev pub key_baseline_share_price : String
key_baseline_share_price = "baseline_share_price_asset_units"

abbrev pub key_baseline : String
key_baseline = "baseline"

abbrev pub key_loss_warn_bps : String
key_loss_warn_bps = "loss_warn_bps"

abbrev pub key_loss_urgent_bps : String
key_loss_urgent_bps = "loss_urgent_bps"

abbrev pub key_idle_warn : String
key_idle_warn = "idle_warn_threshold_usdc"

abbrev pub key_idle_urgent : String
key_idle_urgent = "idle_urgent_threshold_usdc"

abbrev pub key_change_severity : String
key_change_severity = "change_severity"

abbrev pub checked_bps : MonitorModuleId → String → Option ℤ → Result ℤ
checked_bps module_id key none = err (about_field module_id key " must be an integer")
checked_bps module_id key (some n) =
    if not (is_none (validate_bps (module_id <> "." <> key) n)) || leb_ℤ n (pos 0)
    then err (about_field module_id key " must be between 1 and 10000 bps")
    else ok n

unfoldable pub parse_threshold_bps : MonitorModuleId → String → String → Result ℤ
unfolding parse_int64 validate_bps
parse_threshold_bps module_id key value = checked_bps module_id key (parse_int64 (codes value))

abbrev pub checked_units : MonitorModuleId → String → ℕ → Result ℕ
checked_units module_id key units =
    if units == 0 then err (about_field module_id key " must be positive") else ok units

-- The units are not negative, so that their sign is 0 or 1.
unfoldable pub parse_threshold_asset_units : MonitorModuleId → String → String → ℕ → Result ℕ
unfolding parse_decimal_units
parse_threshold_asset_units module_id key value decimals =
    parse_decimal_units (module_id <> "." <> key) (codes value) decimals
    >>= checked_units module_id key

-- The error of a parser.
abbrev pub error_of {ℓ} : {A : Type ℓ} → Result A → Option Error
error_of (ok _) = none
error_of (err e) = some e

unfoldable pub validate_threshold_value : MonitorModuleId → String → String → ℕ → Option Error
unfolding parse_threshold_bps parse_threshold_asset_units
validate_threshold_value module_id key value decimals =
    if str_eq key key_loss_warn_bps || str_eq key key_loss_urgent_bps
    then error_of (parse_threshold_bps module_id key value)
    else (if str_eq key key_idle_warn || str_eq key key_idle_urgent
        then error_of (parse_threshold_asset_units module_id key value decimals)
        else fail_if
            (str_eq key key_change_severity
              && (not (str_eq value "warn") && not (str_eq value "urgent")))
            (about_field module_id key " must be warn or urgent"))

-- `core.Severity(value)`
abbrev pub severity_of : String → Severity
severity_of value =
    if str_eq value "warn"
    then Severity.warn
    else (if str_eq value "urgent" then Severity.urgent else Severity.other value)
