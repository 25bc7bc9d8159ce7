-- ===== src/Providers/Thresholds.antt =====
-- internal/app/providers.go: thresholdProvider. A change is asked for, confirmed and stored.
use withdraw_bot.Prelude.{
  ℤ, pos, ◌+ℤ◌, ◌*◌, leb_ℤ, String, Option, none, some, List, [], ◌∷◌, str_eq, lookup_text, decimal,
  ◌<>◌, if◌then◌else◌,
}
use withdraw_bot.Errors.{Error, Result, ok, err}
use withdraw_bot.Core.{event_security, command_confirm}
use withdraw_bot.Storage.{
  PendingConfirmation, insert_pending_confirmation, consume_pending_confirmation,
}
use withdraw_bot.Storage.Thresholds.{
  StoredOverride, list_threshold_overrides, upsert_threshold_override,
}
use withdraw_bot.Storage.Events.{EventRow, insert_event}
use withdraw_bot.Telegram.Commands.{
  ThresholdSetRequest, ThresholdConfirmation, build_threshold_confirmation,
}
use withdraw_bot.Overrides.Change.{validate_threshold_change}
use withdraw_bot.Providers.Database.{Database, Provider, to_threshold_overrides}

abbrev pub validate_listed :
    Provider → ThresholdSetRequest → Result (List StoredOverride) → Option Error
validate_listed provider r (err e) = some e
validate_listed provider r (ok overrides) =
    validate_threshold_change r.module_id r.key r.value (lookup_text r.module_id provider.modules)
      (to_threshold_overrides overrides) provider.asset_decimals

unfoldable pub validate_change : Provider → Database → ThresholdSetRequest → Option Error
validate_change provider db r =
    validate_listed provider r (list_threshold_overrides provider.override_faults db.overrides)

abbrev pub effective_ttl : ℤ → ℤ
effective_ttl ttl = if leb_ℤ ttl (pos 0) then pos (10 * 60 * 1000000000) else ttl

abbrev pub pending_of : Provider → ThresholdConfirmation → String → ℤ → PendingConfirmation
pending_of provider confirmation payload user_id = record {
  id = confirmation.id;
  kind = "threshold";
  payload_json = payload;
  requested_by_user_id = user_id;
  expires_at = provider.now +ℤ effective_ttl provider.ttl;
  created_at = provider.now;
}

-- The answer after the insertion.
abbrev pub after_insert :
    ThresholdConfirmation
    → Database
    → Option Error × List PendingConfirmation
    → Database × Result String
after_insert confirmation db (some e, table) = (record db { confirmations = table }, err e)
after_insert confirmation db (none, table) = (
  record db { confirmations = table },
  ok (confirmation.message <> "\nconfirm with " <> command_confirm <> " " <> confirmation.id),
)

abbrev pub insert_request :
    Provider → ThresholdConfirmation → ℤ → Database → Result String → Database × Result String
insert_request provider confirmation user_id db (err e) = (db, err e)
insert_request provider confirmation user_id db (ok payload) = after_insert confirmation db (
    insert_pending_confirmation provider.confirmation_faults
      (pending_of provider confirmation payload user_id) db.confirmations)

abbrev pub insert_valid :
    Provider → ThresholdConfirmation → ℤ → Database → Option Error → Database × Result String
insert_valid provider confirmation user_id db (some e) = (db, err e)
insert_valid provider confirmation user_id db none =
    insert_request provider confirmation user_id db (provider.encode_request confirmation.request)

abbrev pub request_built :
    Provider → ℤ → Database → Result ThresholdConfirmation → Database × Result String
request_built provider user_id db (err e) = (db, err e)
request_built provider user_id db (ok confirmation) =
    insert_valid provider confirmation user_id db (validate_change provider db confirmation.request)

-- `BuildSetConfirmation`
unfoldable pub build_set_confirmation :
    Provider → ℤ → String → String → String → Database → Database × Result String
build_set_confirmation provider user_id module_id key value db = request_built provider user_id db (
    build_threshold_confirmation
      (record { module_id = module_id; key = key; value = value; user_id = user_id }))

-- The audit event of an override.
abbrev pub override_fields : ThresholdSetRequest → ℤ → List (String × String)
override_fields r user_id =
    ("module_id", r.module_id)
    ∷ ("key", r.key)
    ∷ ("value", r.value)
    ∷ ("user_id", decimal user_id)
    ∷ []

abbrev pub applied_text : ThresholdSetRequest → String
applied_text r = "threshold override applied " <> r.module_id <> " " <> r.key <> "=" <> r.value

-- The answer after the record of the event.
abbrev pub after_record :
    ThresholdSetRequest → Database → Option Error × List EventRow → Database × Result String
after_record r db (some e, events) = (record db { events = events }, err e)
after_record r db (none, events) = (record db { events = events }, ok (applied_text r))

abbrev pub record_override :
    Provider → ThresholdSetRequest → ℤ → Database → Database × Result String
record_override provider r user_id db = after_record r db (
    insert_event provider.format_time provider.event_faults event_security
      "threshold override applied" (override_fields r user_id) provider.now db.events)

abbrev pub store_override :
    Provider
    → ThresholdSetRequest
    → ℤ
    → Database
    → Option Error × List StoredOverride
    → Database × Result String
store_override provider r user_id db (some e, table) = (record db { overrides = table }, err e)
store_override provider r user_id db (none, table) =
    record_override provider r user_id (record db { overrides = table })

abbrev pub apply_valid :
    Provider
    → PendingConfirmation
    → ThresholdSetRequest
    → ℤ
    → Database
    → Option Error
    → Database × Result String
apply_valid provider c r user_id db (some e) = (db, err e)
apply_valid provider c r user_id db none = store_override provider r user_id db (
    upsert_threshold_override provider.override_faults r.module_id r.key r.value
      c.requested_by_user_id provider.now db.overrides)

abbrev pub apply_built :
    Provider
    → PendingConfirmation
    → ThresholdSetRequest
    → ℤ
    → Database
    → Result ThresholdConfirmation
    → Database × Result String
apply_built provider c r user_id db (err e) = (db, err e)
apply_built provider c r user_id db (ok _) =
    apply_valid provider c r user_id db (validate_change provider db r)

abbrev pub apply_request :
    Provider
    → PendingConfirmation
    → ℤ
    → Database
    → Result ThresholdSetRequest
    → Database × Result String
apply_request provider c user_id db (err e) = (db, err e)
apply_request provider c user_id db (ok r) =
    apply_built provider c r user_id db (build_threshold_confirmation r)

abbrev pub apply_consumed :
    Provider → String → ℤ → Database → Result PendingConfirmation → Database × Result String
apply_consumed provider id user_id db (err e) = (db, err e)
apply_consumed provider id user_id db (ok c) =
    if str_eq c.kind "threshold"
    then apply_request provider c user_id db (provider.decode_request c.payload_json)
    else (
      db,
      err (Error.message ("pending confirmation \"" <> id <> "\" is not a threshold change")),
    )

-- `Confirm`
unfoldable pub confirm : Provider → ℤ → String → Database → Database × Result String
confirm provider user_id id db =
    let (consumed, table) =
      consume_pending_confirmation provider.confirmation_faults id provider.now (some user_id)
        db.confirmations in
    apply_consumed provider id user_id (record db { confirmations = table }) consumed
