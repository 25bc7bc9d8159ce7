-- ===== src/Providers/Database.antt =====
-- internal/app/providers.go and internal/app/overrides.go: the state of the providers, what they are
-- given, and the modules with the stored overrides.
use withdraw_bot.Prelude.{ℕ, ℤ, String, Option, some, List, [], ◌∷◌}
use withdraw_bot.Errors.{Error, Result, ok, err, ◌>>=◌}
use withdraw_bot.Core.{Time, ThresholdOverride, MonitorResult}
use withdraw_bot.Config.Values.{Value, ModuleConfig}
use withdraw_bot.Storage.{PendingConfirmation, Faults}
use withdraw_bot.Storage.Thresholds.{StoredOverride, OverrideFaults, list_threshold_overrides}
use withdraw_bot.Storage.Events.{EventRow, EventFaults}
use withdraw_bot.Telegram.Commands.{ThresholdSetRequest}
use withdraw_bot.Overrides.Apply.{MonitorModule, apply_overrides}

pub record Database : Type 0 where
  pub confirmations : List PendingConfirmation
  pub overrides : List StoredOverride
  pub events : List EventRow

-- The configuration, and what one call meets: the time, the errors of the database, and the texts of
-- times, values and requests that Go's standard library writes and reads.
pub record Provider : Type 0 where
  pub modules : List (String × ModuleConfig)
  pub asset_decimals : ℕ
  pub ttl : ℤ
  pub limit : ℤ
  pub now : Time
  pub confirmation_faults : Faults
  pub override_faults : OverrideFaults
  pub event_faults : EventFaults
  pub format_time : Time → String
  pub parse_time : String → Result Time
  pub show_value : Value → String
  pub encode_request : ThresholdSetRequest → Result String
  pub decode_request : String → Result ThresholdSetRequest

unfoldable pub to_threshold_overrides : List StoredOverride → List ThresholdOverride
to_threshold_overrides [] = []
to_threshold_overrides (o ∷ os) =
    record { module_id = o.module_id; key = o.key; value = o.value } ∷ to_threshold_overrides os

-- `thresholdOverrideModule.effective`: the module with the overrides that are stored.
unfoldable pub effective : Provider → Database → MonitorModule → Result MonitorModule
effective provider db m =
    list_threshold_overrides provider.override_faults db.overrides >>= λ overrides.
    apply_overrides m (to_threshold_overrides overrides) provider.asset_decimals

-- `thresholdOverrideModule.Monitor`, by how each module monitors.
unfoldable monitor_effective :
    (MonitorModule → Result MonitorResult)
    → Provider
    → Database
    → MonitorModule
    → Result MonitorResult
unfolding effective
monitor_effective monitor provider db m = effective provider db m >>= monitor

abbrev pub validated_effective :
    (MonitorModule → Option Error) → Result MonitorModule → Option Error
validated_effective validate (err e) = some e
validated_effective validate (ok m) = validate m

-- `thresholdOverrideModule.ValidateConfig`
unfoldable validate_effective_module :
    (MonitorModule → Option Error) → Provider → Database → MonitorModule → Option Error
unfolding effective
validate_effective_module validate provider db m =
    validated_effective validate (effective provider db m)
