-- ===== src/Tests/Tables.antt =====
-- internal/storage/repositories.go: the rows of the overrides and of the events, in a
-- small database.
use withdraw_bot.Prelude.{
  String, ℤ, pos, none, some, List, [], ◌∷◌, ◌≡◌, refl, str_eq, ◌&&◌, if◌then◌else◌,
}
use withdraw_bot.Errors.{Result, ok}
use withdraw_bot.Core.{event_security, event_info, module_share_price_loss}
use withdraw_bot.Storage.Thresholds.{
  StoredOverride, OverrideFaults, upsert_row, upsert_threshold_override, list_threshold_overrides,
  scan_overrides,
}
use withdraw_bot.Storage.OverrideRows.{IsOrdered, override_at, list_threshold_overrides-upsert}
use withdraw_bot.Storage.Events.{EventRow, EventRecord, EventFaults}

abbrev pub override_faults : OverrideFaults
override_faults = record {
  upsert = none;
  query = none;
  scan = λ o. none;
  parse_updated_at = λ o. none;
  rows = none;
}

abbrev urgent_row : StoredOverride
urgent_row = record {
  module_id = module_share_price_loss;
  key = "loss_urgent_bps";
  value = "500";
  updated_by_user_id = pos 7;
  updated_at = pos 1;
}

abbrev warn_row : StoredOverride
warn_row = record {
  module_id = module_share_price_loss;
  key = "loss_warn_bps";
  value = "200";
  updated_by_user_id = pos 8;
  updated_at = pos 9;
}

list_threshold_overrides-upsert_example :
    IsOrdered (urgent_row ∷ warn_row ∷ [])
    × ((module_id key : String)
        → override_at module_id key (urgent_row ∷ warn_row ∷ []) ≡ (
            if str_eq module_id module_share_price_loss && str_eq key "loss_warn_bps"
            then some warn_row
            else override_at module_id key (urgent_row ∷ [])))
unfolding upsert_threshold_override upsert_row list_threshold_overrides scan_overrides
list_threshold_overrides-upsert_example =
    list_threshold_overrides-upsert override_faults override_faults module_share_price_loss
      "loss_warn_bps" "200" (pos 8) (pos 9) (urgent_row ∷ []) (tt, tt) refl refl

abbrev pub event_faults : EventFaults
event_faults = record {
  encode = none;
  insert = none;
  query = none;
  scan = λ e. none;
  decode_fields = λ e. none;
  rows = none;
}

abbrev pub parse_time : String → Result ℤ
parse_time text = if str_eq text "08:00" then ok (pos 8) else ok (pos 9)

abbrev old_event : EventRow
old_event = record {
  event_type = event_security;
  message = "old";
  fields = [];
  created_at = "08:00";
}

abbrev new_event : EventRow
new_event = record {
  event_type = event_security;
  message = "new";
  fields = [];
  created_at = "09:00";
}

abbrev info_event : EventRow
info_event = record { event_type = event_info; message = "note"; fields = []; created_at = "09:30" }

abbrev new_record : EventRecord
new_record = record {
  event_type = event_security;
  message = "new";
  fields = [];
  created_at = pos 9;
}
