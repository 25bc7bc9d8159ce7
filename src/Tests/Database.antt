-- ===== src/Tests/Database.antt =====
-- internal/app/providers.go and internal/morpho/overrides.go: changes of thresholds at concrete inputs.
-- in a small database.
use withdraw_bot.Prelude.{ℤ, pos, none, some, [], ◌∷◌, ◌≡◌, refl, ◌<ℤ◌, true, arith, decimal, ◌+ℤ◌}
use withdraw_bot.Errors.{Error, ok, err}
use withdraw_bot.Core.{module_share_price_loss}
use withdraw_bot.Config.Values.{Value, ModuleConfig, module_int64, parse_integer, parse_int64}
use withdraw_bot.Config.{validate_bps}
use withdraw_bot.Storage.{
  PendingConfirmation, row, without, consume_pending_confirmation, select_pending_confirmation,
  delete_confirmation,
}
use withdraw_bot.Storage.Confirmations.{no_faults}
use withdraw_bot.Storage.Thresholds.{
  upsert_row, upsert_threshold_override, list_threshold_overrides, scan_overrides,
}
use withdraw_bot.Storage.Events.{insert_event}
use withdraw_bot.Modules.SharePrice.{validate_share_price}
use withdraw_bot.Overrides.Values.{parse_threshold_bps, validate_threshold_value}
use withdraw_bot.Overrides.Apply.{apply_share_price_overrides, override_share_price}
use withdraw_bot.Overrides.Change.{
  upsert_override, share_price_threshold_config, validate_effective, validate_threshold_change,
}
use withdraw_bot.Factory.{Setup, Readers}
use withdraw_bot.Telegram.Commands.{
  ThresholdSetRequest, confirmation_of, build_threshold_confirmation,
}
use withdraw_bot.Providers.Database.{Database, Provider, to_threshold_overrides}
use withdraw_bot.Providers.Thresholds.{
  validate_change, build_set_confirmation, confirm, applied_text,
}
use withdraw_bot.Providers.Confirming.{Confirms, confirm-Confirms}
use withdraw_bot.Providers.Requesting.{
  in_force, build_set_confirmation-taken, confirm-build_set_confirmation,
}
use withdraw_bot.Tests.Tables.{override_faults, event_faults, parse_time}

abbrev pub config : ModuleConfig
config =
    ("enabled", Value.boolean true)
    ∷ ("baseline_share_price_asset_units", Value.text "1000000")
    ∷ ("loss_warn_bps", Value.integer (pos 100))
    ∷ ("loss_urgent_bps", Value.integer (pos 500))
    ∷ []

abbrev pub readers : Readers
readers = record {
  share_price = ok (some (pos 1000000));
  idle_assets = λ a. ok (some (pos 5));
  vault_state = err (Error.message "down");
  now = pos 3;
}

abbrev pub setup : Setup
setup = record {
  modules = (module_share_price_loss, config) ∷ [];
  asset_decimals = 6;
  readers = readers;
  exit_simulator = none;
  vault = 1;
  owner = 2;
  receiver = 3;
  decode_snapshot = λ v. err (Error.message "no snapshot");
}

abbrev pub provider : ℤ → Provider
provider now = record {
  modules = (module_share_price_loss, config) ∷ [];
  asset_decimals = 6;
  ttl = pos 0;
  limit = pos 0;
  now = now;
  confirmation_faults = no_faults (Error.message "constraint failed");
  override_faults = override_faults;
  event_faults = event_faults;
  format_time = λ t. "09:00";
  parse_time = parse_time;
  show_value = λ v. "value";
  encode_request = λ r. ok r.value;
  decode_request = λ text. ok (record {
    module_id = module_share_price_loss;
    key = "loss_warn_bps";
    value = text;
    user_id = pos 7;
  });
}

abbrev request : ThresholdSetRequest
request = record {
  module_id = module_share_price_loss;
  key = "loss_warn_bps";
  value = "200";
  user_id = pos 7;
}

abbrev asked : PendingConfirmation
asked = record {
  id = (confirmation_of request).id;
  kind = "threshold";
  payload_json = "200";
  requested_by_user_id = pos 7;
  expires_at = pos 600000000040;
  created_at = pos 40;
}

abbrev empty : Database
empty = record { confirmations = []; overrides = []; events = [] }

abbrev pending : Database
pending = record empty { confirmations = asked ∷ [] }

confirm-Confirms_example :
    (c : PendingConfirmation) × (row (confirmation_of request).id (asked ∷ []) ≡ some c)
    × (c.requested_by_user_id ≡ pos 7)
    × (pos 50 <ℤ c.expires_at)
    × Confirms
        (provider (pos 50))
        (pos 7)
        c
        (record pending { confirmations = without (confirmation_of request).id (asked ∷ []) })
        (confirm (provider (pos 50)) (pos 7) (confirmation_of request).id pending).0
unfolding confirm consume_pending_confirmation select_pending_confirmation delete_confirmation
    build_threshold_confirmation validate_change list_threshold_overrides scan_overrides
    to_threshold_overrides validate_threshold_change validate_effective validate_threshold_value
    parse_threshold_bps parse_int64 parse_integer validate_bps share_price_threshold_config
    module_int64 apply_share_price_overrides override_share_price upsert_override
    validate_share_price upsert_threshold_override upsert_row insert_event decimal
confirm-Confirms_example =
    confirm-Confirms (provider (pos 50)) (pos 7) (confirmation_of request).id pending refl

build_set_confirmation-taken_example :
    (e : Error) × (build_set_confirmation
        (provider (pos 900000000000))
        (pos 7)
        module_share_price_loss
        "loss_warn_bps"
        "300"
        pending
      ≡ (pending, err e))
unfolding decimal
build_set_confirmation-taken_example =
    build_set_confirmation-taken (provider (pos 900000000000)) (pos 7) pending
      (record request { value = "300" }) asked refl refl

confirm-build_set_confirmation_example :
    confirm
      (provider (pos 50))
      (pos 7)
      (confirmation_of request).id
      (build_set_confirmation
        (provider (pos 40))
        (pos 7)
        module_share_price_loss
        "loss_warn_bps"
        "200"
        empty).0
    ≡ (in_force (provider (pos 50)) request empty, ok (applied_text request))
unfolding build_threshold_confirmation validate_change list_threshold_overrides scan_overrides
    to_threshold_overrides validate_threshold_change validate_effective validate_threshold_value
    parse_threshold_bps parse_int64 parse_integer validate_bps share_price_threshold_config
    module_int64 apply_share_price_overrides override_share_price upsert_override
    validate_share_price insert_event ◌+ℤ◌
confirm-build_set_confirmation_example =
    confirm-build_set_confirmation (provider (pos 40)) (provider (pos 50))
      (Error.message "constraint failed") request "200" empty refl refl refl refl refl refl refl
      refl refl refl (omega arith)
