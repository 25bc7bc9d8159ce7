-- ===== src/Providers/Confirming.antt =====
-- internal/app/providers.go: what a confirmation that is used changes.
use withdraw_bot.Prelude.{
  ℤ, String, false, Option, none, some, List, ◌∷◌, str_eq, eq_of_parts, eq_iff, Bool-cases, inl,
  inr, ◌≡◌, refl, sym, ap, ◌∙◌, subst, arith, ◌<ℤ◌, if◌then◌else◌, ◌<>◌,
}
use withdraw_bot.Errors.{Error, Result, ok, err}
use withdraw_bot.Core.{Time, EventType, event_security}
use withdraw_bot.Storage.{
  PendingConfirmation, row, without, is_wrong_requester, consume_pending_confirmation,
}
use withdraw_bot.Storage.Confirmations.{consume_sound}
use withdraw_bot.Storage.Thresholds.{
  StoredOverride, upserted, upsert_row, upsert_threshold_override,
}
use withdraw_bot.Storage.Events.{EventRow, EventFaults, insert_event}
use withdraw_bot.Telegram.Commands.{
  ThresholdSetRequest, ThresholdConfirmation, build_threshold_confirmation,
}
use withdraw_bot.Providers.Database.{Database, Provider}
use withdraw_bot.Providers.Thresholds.{
  validate_change, override_fields, after_record, store_override, apply_valid, apply_built,
  apply_request, apply_consumed, confirm,
}

pub insert_event-none :
    (format : Time → String) (faults : EventFaults) (t : EventType) (m : String)
    (fields : List (String × String)) (at : Time) (table : List EventRow)
    → (insert_event format faults t m fields at table).0 ≡ none
    → (insert_event format faults t m fields at table).1
      ≡ (record { event_type = t; message = m; fields = fields; created_at = format at } ∷ table)
unfolding insert_event
insert_event-none format faults t m fields at table h = ground arith

-- The row that an accepted request stores, and the event that it leaves.
abbrev pub stored_row : Provider → ThresholdSetRequest → ℤ → StoredOverride
stored_row provider r user_id = record {
  module_id = r.module_id;
  key = r.key;
  value = r.value;
  updated_by_user_id = user_id;
  updated_at = provider.now;
}

abbrev pub override_event : Provider → ThresholdSetRequest → ℤ → EventRow
override_event provider r user_id = record {
  event_type = event_security;
  message = "threshold override applied";
  fields = override_fields r user_id;
  created_at = provider.format_time provider.now;
}

-- The state after a request was applied.
abbrev pub Applied : Provider → ThresholdSetRequest → ℤ → ℤ → Database → Database → Type 0
Applied provider r requester user_id db after =
    (after.confirmations ≡ db.confirmations)
    × (after.overrides ≡ upsert_row (stored_row provider r requester) db.overrides)
    × (after.events ≡ (override_event provider r user_id ∷ db.events))

module _ (provider : Provider) (user_id : ℤ) where
  after_record-ok :
      (r : ThresholdSetRequest) (db : Database) (i : Option Error × List EventRow) {text : String}
      → (after_record r db i).1 ≡ ok text
      → (i.0 ≡ none) × ((after_record r db i).0 ≡ record db { events = i.1 })
  after_record-ok r db (none, events) h = (refl, refl)
  after_record-ok r db (some e, events) h = cc

  store_override-ok :
      (r : ThresholdSetRequest) (requester : ℤ) (db : Database) (answer : Option Error)
      {text : String}
      → (store_override provider r user_id db
          (upserted answer (stored_row provider r requester) db.overrides)).1
        ≡ ok text
      → Applied provider r requester user_id db
          (store_override provider r user_id db
            (upserted answer (stored_row provider r requester) db.overrides)).0
  store_override-ok r requester db (some e) h = cc
  store_override-ok r requester db none h =
      let stored : Database = record db {
        overrides = upsert_row (stored_row provider r requester) db.overrides;
      } in
      let i =
        insert_event provider.format_time provider.event_faults event_security
          "threshold override applied" (override_fields r user_id) provider.now db.events in
      let (recorded, after) = after_record-ok r stored i h in
      let events =
        insert_event-none provider.format_time provider.event_faults event_security
          "threshold override applied" (override_fields r user_id) provider.now db.events
          recorded in
      (
        ap (λ d. d.confirmations) after,
        ap (λ d. d.overrides) after,
        ap (λ d. d.events) after ∙ events,
      )

  apply_valid-ok :
      (c : PendingConfirmation) (r : ThresholdSetRequest) (db : Database) (v : Option Error)
      {text : String}
      → (apply_valid provider c r user_id db v).1 ≡ ok text
      → (v ≡ none)
        × Applied provider r c.requested_by_user_id user_id db
            (apply_valid provider c r user_id db v).0
  unfolding upsert_threshold_override
  apply_valid-ok c r db (some e) h = cc
  apply_valid-ok c r db none h =
      (refl, store_override-ok r c.requested_by_user_id db provider.override_faults.upsert h)

  apply_built-ok :
      (c : PendingConfirmation) (r : ThresholdSetRequest) (db : Database)
      (b : Result ThresholdConfirmation) {text : String}
      → (apply_built provider c r user_id db b).1 ≡ ok text
      → (asked : ThresholdConfirmation) × (b ≡ ok asked)
        × (validate_change provider db r ≡ none)
        × Applied provider r c.requested_by_user_id user_id db
            (apply_built provider c r user_id db b).0
  apply_built-ok c r db (err e) h = cc
  apply_built-ok c r db (ok asked) h =
      let (valid, applied) = apply_valid-ok c r db (validate_change provider db r) h in
      (asked, refl, valid, applied)

  apply_request-ok :
      (c : PendingConfirmation) (db : Database) (read : Result ThresholdSetRequest) {text : String}
      → (apply_request provider c user_id db read).1 ≡ ok text
      → (r : ThresholdSetRequest) × (asked : ThresholdConfirmation) × (read ≡ ok r)
        × (build_threshold_confirmation r ≡ ok asked)
        × (validate_change provider db r ≡ none)
        × Applied provider r c.requested_by_user_id user_id db
            (apply_request provider c user_id db read).0
  apply_request-ok c db (err e) h = cc
  apply_request-ok c db (ok r) h =
      let (asked, built, valid, applied) =
        apply_built-ok c r db (build_threshold_confirmation r) h in
      (r, asked, refl, built, valid, applied)

  -- What a pending confirmation that was used must be, and what its use changes.
  abbrev pub Confirms : PendingConfirmation → Database → Database → Type 0
  Confirms c db after =
      (c.kind ≡ "threshold")
      × ((r : ThresholdSetRequest) × (asked : ThresholdConfirmation) × (provider.decode_request
              c.payload_json
            ≡ ok r)
          × (build_threshold_confirmation r ≡ ok asked)
          × (validate_change provider db r ≡ none)
          × Applied provider r c.requested_by_user_id user_id db after)

  apply_consumed-ok :
      (id : String) (db : Database) (read : Result PendingConfirmation) {text : String}
      → (apply_consumed provider id user_id db read).1 ≡ ok text
      → (c : PendingConfirmation) × (read ≡ ok c)
        × Confirms c db (apply_consumed provider id user_id db read).0
  apply_consumed-ok id db (err e) h = cc
  apply_consumed-ok id db (ok c) {text} h =
      let fail =
        err (Error.message ("pending confirmation \"" <> id <> "\" is not a threshold change")) in
      let go_on = apply_request provider c user_id db (provider.decode_request c.payload_json) in
      elim (Bool-cases (str_eq c.kind "threshold")) [
        | inl e ↦
            let (r, asked, read, built, valid, applied) =
              apply_request-ok c db (provider.decode_request c.payload_json)
                (subst (λ b. (if b then go_on else (db, fail)).1 ≡ ok text) e h) in
            (
              c,
              refl,
              (
                (eq_iff c.kind "threshold").0 e,
                (
                  r,
                  asked,
                  read,
                  built,
                  valid,
                  subst
                      (λ b.
                        Applied provider r c.requested_by_user_id user_id db
                          (if b then go_on else (db, fail)).0)
                      (sym e) applied,
                ),
              ),
            )
        | inr e ↦ let bad = subst (λ b. (if b then go_on else (db, fail)).1 ≡ ok text) e h in cc
      ]

same_requester :
    (user_id : ℤ) (c : PendingConfirmation)
    → is_wrong_requester (some user_id) c ≡ false
    → c.requested_by_user_id ≡ user_id
same_requester user_id c h = ground (arith, eq_of_parts c.requested_by_user_id user_id)

-- A user's confirmation that succeeds was pending under its id, for this user and not expired, and
-- holds a change of an allowed threshold that validation accepts over the overrides that are stored.
-- It is then no longer pending, the value of the change is stored for its module and key with the
-- user and the time, and one security event of the change is recorded.
pub confirm-Confirms :
    (provider : Provider) (user_id : ℤ) (id : String) (db : Database) {text : String}
    → (confirm provider user_id id db).1 ≡ ok text
    → (c : PendingConfirmation) × (row id db.confirmations ≡ some c)
      × (c.requested_by_user_id ≡ user_id)
      × (provider.now <ℤ c.expires_at)
      × Confirms provider user_id c
          (record db { confirmations = without id db.confirmations })
          (confirm provider user_id id db).0
unfolding confirm
confirm-Confirms provider user_id id db h =
    let consumed =
      consume_pending_confirmation provider.confirmation_faults id provider.now (some user_id)
        db.confirmations in
    let taken : Database = record db { confirmations = consumed.1 } in
    let (c, read, confirmed) = apply_consumed-ok provider user_id id taken consumed.0 h in
    let (found, requester, early, rest) =
      consume_sound provider.confirmation_faults id provider.now (some user_id) db.confirmations
        read in
    (
      c,
      found,
      same_requester user_id c requester,
      early,
      subst
          (λ t.
            Confirms provider user_id c (record db { confirmations = t })
              (apply_consumed provider id user_id taken consumed.0).0)
          rest confirmed,
    )
