-- ===== src/Storage/Events.antt =====
-- internal/storage/repositories.go: the table of the events. It is the list of its rows, the newest
-- id first. The times are kept as texts, and ordered as texts.
use withdraw_bot.Prelude.{
  ℤ, pos, pos_part, String, Bool, ◌||◌, Option, none, some, List, [], ◌∷◌, str_eq, str_ltb, ltb_ℤ,
  take, if◌then◌else◌,
}
use withdraw_bot.Errors.{Error, Result, ok, err, ◌>>◌, ◌>>=◌}
use withdraw_bot.Core.{
  Time, EventType, event_warning, event_error, event_security, event_withdrawal,
}
use withdraw_bot.Storage.Thresholds.{wrap}

pub record EventRecord : Type 0 where
  pub event_type : EventType
  pub message : String
  pub fields : List (String × String)
  pub created_at : Time

-- A row; the fields, which it keeps as JSON, are kept as they are.
pub record EventRow : Type 0 where
  pub event_type : EventType
  pub message : String
  pub fields : List (String × String)
  pub created_at : String

-- The errors of the driver and of the decoders in one operation.
pub record EventFaults : Type 0 where
  pub encode : Option Error
  pub insert : Option Error
  pub query : Option Error
  pub scan : EventRow → Option Error
  pub decode_fields : EventRow → Option Error
  pub rows : Option Error

unfoldable pub clamp_recent_events_limit : ℤ → ℤ
clamp_recent_events_limit limit =
    if ltb_ℤ limit (pos 1) then pos 1 else (if ltb_ℤ (pos 50) limit then pos 50 else limit)

-- `WHERE event_type IN (?, ?, ?, ?)`, unless all types are asked for.
abbrev pub is_listed : Bool → EventRow → Bool
is_listed include_info e =
    include_info
    || str_eq e.event_type event_warning
    || str_eq e.event_type event_error
    || str_eq e.event_type event_security
    || str_eq e.event_type event_withdrawal

abbrev pub listed : Bool → List EventRow → List EventRow
listed include_info [] = []
listed include_info (e ∷ es) =
    let below = listed include_info es in if is_listed include_info e then e ∷ below else below

-- `ORDER BY created_at DESC, id DESC`; rows of one time stay in the order of the table.
unfoldable pub insert_newest : EventRow → List EventRow → List EventRow
insert_newest e [] = e ∷ []
insert_newest e (x ∷ xs) =
    let below = insert_newest e xs in
    if str_ltb e.created_at x.created_at then x ∷ below else e ∷ x ∷ xs

unfoldable pub newest_first : List EventRow → List EventRow
newest_first [] = []
newest_first (e ∷ es) = insert_newest e (newest_first es)

-- The rows that the query selects.
unfoldable pub select_recent : Bool → ℤ → List EventRow → List EventRow
unfolding clamp_recent_events_limit
select_recent include_info limit table =
    take (pos_part (clamp_recent_events_limit limit)) (newest_first (listed include_info table))

-- `format` is the layout RFC3339Nano of the times.
module _ (format : Time → String) where
  -- `InsertEvent`, and `Record`, which only calls it.
  unfoldable pub insert_event :
      EventFaults
      → EventType
      → String
      → List (String × String)
      → Time
      → List EventRow
      → Option Error × List EventRow
  insert_event faults event_type message fields created_at table = elim faults.encode [
    | some e ↦ (some (Error.wrapped "encode event fields" e), table)
    | none ↦ elim faults.insert [
      | some e ↦ (some (Error.wrapped "insert event record" e), table)
      | none ↦ (
        none,
        record {
          event_type = event_type;
          message = message;
          fields = fields;
          created_at = format created_at;
        }
            ∷ table,
      )
    ]
  ]

-- `parse` reads a time of the layout RFC3339Nano.
module _ (parse : String → Result Time) where
  abbrev pub parse_created_at : EventRow → Result Time
  parse_created_at row = elim (parse row.created_at) [
    | ok time ↦ ok time
    | err e ↦ err (Error.wrapped "parse event created_at" e)
  ]

  unfoldable pub scan_event_record : EventFaults → EventRow → Result EventRecord
  scan_event_record faults row =
      wrap "list event record" (faults.scan row)
      >> (wrap "decode event fields" (faults.decode_fields row)
          >> (parse_created_at row >>= λ time. ok (record {
            event_type = row.event_type;
            message = row.message;
            fields = row.fields;
            created_at = time;
          })))

  -- The loop over the rows, and the error of the rows at its end.
  unfoldable pub scan_events : EventFaults → List EventRow → Result (List EventRecord)
  unfolding scan_event_record
  scan_events faults [] = wrap "list recent events" faults.rows >> ok []
  scan_events faults (row ∷ rows) =
      let rest = scan_events faults rows in
      scan_event_record faults row >>= λ event. (rest >>= λ events. ok (event ∷ events))

  unfoldable pub list_recent_events :
      EventFaults → Bool → ℤ → List EventRow → Result (List EventRecord)
  unfolding select_recent scan_events
  list_recent_events faults include_info limit table =
      wrap "list recent events" faults.query
      >> scan_events faults (select_recent include_info limit table)
