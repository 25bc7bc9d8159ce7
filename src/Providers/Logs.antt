-- ===== src/Providers/Logs.antt =====
-- internal/app/providers.go: eventLogProvider.
use withdraw_bot.Prelude.{
  pos, leb_ℤ, String, Bool, List, [], ◌∷◌, str_eq, sort_keys, ◌<>◌, if◌then◌else◌,
}
use withdraw_bot.Errors.{Result, ok, ◌>>=◌}
use withdraw_bot.Storage.Events.{EventRecord, list_recent_events}
use withdraw_bot.Providers.Database.{Database, Provider}
use withdraw_bot.Providers.Listing.{join_with}

abbrev pub field_parts : List (String × String) → List String
field_parts [] = []
field_parts ((key, value) ∷ rest) = (key <> "=" <> value) ∷ field_parts rest

unfoldable format_event_fields : List (String × String) → String
unfolding sort_keys
format_event_fields fields = join_with " " (field_parts (sort_keys fields))

unfoldable pub format_event_record : Provider → EventRecord → String
unfolding format_event_fields
format_event_record provider event =
    let line =
      provider.format_time event.created_at <> " " <> event.event_type <> " " <> event.message in
    let fields = format_event_fields event.fields in
    if str_eq fields "" then line else line <> " " <> fields

abbrev pub event_lines : Provider → List EventRecord → List String
event_lines provider [] = []
event_lines provider (e ∷ es) = format_event_record provider e ∷ event_lines provider es

abbrev pub log_text : Provider → List EventRecord → String
log_text provider [] = "no recent events"
log_text provider (e ∷ es) = join_with "\n" (event_lines provider (e ∷ es))

-- `Recent`
unfoldable pub recent : Provider → Bool → Database → Database × Result String
unfolding format_event_record
recent provider include_info db = (
  db,
  list_recent_events provider.parse_time provider.event_faults include_info
        (if leb_ℤ provider.limit (pos 0) then pos 10 else provider.limit) db.events
      >>= λ events. ok (log_text provider events),
)
