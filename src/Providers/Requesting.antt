-- ===== src/Providers/Requesting.antt =====
-- internal/app/providers.go: a change of a threshold that is asked for, and its confirmation.
use withdraw_bot.Prelude.{
  ℤ, ◌+ℤ◌, String, false, Option, none, some, List, ◌∷◌, inl, inr, Option-cases, ap₂, ◌≡◌, ◌≢◌,
  refl, sym, ap, ◌∙◌, subst, arith, ◌<ℤ◌,
}
use withdraw_bot.Errors.{Error, Result, ok, err}
use withdraw_bot.Core.{event_security}
use withdraw_bot.Storage.{
  PendingConfirmation, Faults, row, is_wrong_requester, insert_pending_confirmation,
  consume_pending_confirmation,
}
use withdraw_bot.Storage.Confirmations.{no_faults, consume-insert}
use withdraw_bot.Storage.Thresholds.{upserted, upsert_row, upsert_threshold_override}
use withdraw_bot.Storage.Events.{EventRow, insert_event}
use withdraw_bot.Telegram.Commands.{
  ThresholdSetRequest, ThresholdConfirmation, build_threshold_confirmation, confirm_allowed,
  confirmation_of, allowed_threshold_keys,
}
use withdraw_bot.Providers.Database.{Database, Provider}
use withdraw_bot.Providers.Thresholds.{
  validate_change, pending_of, effective_ttl, after_insert, insert_request, insert_valid,
  request_built, build_set_confirmation, after_record, store_override, apply_valid, apply_built,
  apply_request, apply_consumed, confirm, applied_text, override_fields,
}
use withdraw_bot.Providers.Confirming.{stored_row, override_event, insert_event-none}

confirm_allowed-id :
    (r : ThresholdSetRequest) (keys : Option (List String)) {asked : ThresholdConfirmation}
    → confirm_allowed r keys ≡ ok asked
    → confirmation_of r ≡ asked
confirm_allowed-id r none h = cc
confirm_allowed-id r (some keys) h = ground arith

insert_taken-state :
    (f : Faults) (c d : PendingConfirmation) (table : List PendingConfirmation)
    → row c.id table ≡ some d
    → ((insert_pending_confirmation f c table).0 ≢ none)
      × ((insert_pending_confirmation f c table).1 ≡ table)
unfolding insert_pending_confirmation
insert_taken-state f c d table h = (λ k. ground arith, ground arith)

insert_taken :
    (f : Faults) (c d : PendingConfirmation) (table : List PendingConfirmation)
    → row c.id table ≡ some d
    → (e : Error) × (insert_pending_confirmation f c table ≡ (some e, table))
insert_taken f c d table h =
    let (failed, same) = insert_taken-state f c d table h in
    elim (Option-cases (insert_pending_confirmation f c table).0) [
      | inl e ↦ absurd (failed e)
      | inr (x, e) ↦ (x, ap₂ (λ a b. (a, b)) e same)
    ]

module _ (provider : Provider) (user_id : ℤ) (db : Database) where
  request_taken :
      (confirmation : ThresholdConfirmation) (c : PendingConfirmation) (payload : Result String)
      → row confirmation.id db.confirmations ≡ some c
      → (e : Error) × (insert_request provider confirmation user_id db payload ≡ (db, err e))
  request_taken confirmation c (err e) h = (e, refl)
  request_taken confirmation c (ok payload) h =
      let (e, same) =
        insert_taken provider.confirmation_faults (pending_of provider confirmation payload user_id)
          c db.confirmations h in
      (e, ap (after_insert confirmation db) same)

  valid_taken :
      (confirmation : ThresholdConfirmation) (c : PendingConfirmation) (v : Option Error)
      → row confirmation.id db.confirmations ≡ some c
      → (e : Error) × (insert_valid provider confirmation user_id db v ≡ (db, err e))
  valid_taken confirmation c (some e) h = (e, refl)
  valid_taken confirmation c none h =
      request_taken confirmation c (provider.encode_request confirmation.request) h

  built_taken :
      (id : String) (c : PendingConfirmation) (b : Result ThresholdConfirmation)
      → ((asked : ThresholdConfirmation) → b ≡ ok asked → asked.id ≡ id)
      → row id db.confirmations ≡ some c
      → (e : Error) × (request_built provider user_id db b ≡ (db, err e))
  built_taken id c (err e) same h = (e, refl)
  built_taken id c (ok asked) same h =
      valid_taken asked c (validate_change provider db asked.request)
        (subst (λ i. row i db.confirmations ≡ some c) (sym (same asked refl)) h)

  -- While a confirmation of a user for a threshold is in the table, whether or not it has expired, the
  -- user cannot ask for another change of this threshold: the request fails and changes nothing.
  pub build_set_confirmation-taken :
      (r : ThresholdSetRequest) (c : PendingConfirmation)
      → r.user_id ≡ user_id
      → row (confirmation_of r).id db.confirmations ≡ some c
      → (e : Error) × (build_set_confirmation provider user_id r.module_id r.key r.value db
          ≡ (db, err e))
  unfolding build_set_confirmation build_threshold_confirmation
  build_set_confirmation-taken r c same h =
      let asked : ThresholdSetRequest = record r { user_id = user_id } in
      built_taken (confirmation_of asked).id c (build_threshold_confirmation asked)
        (λ b e.
          ap (λ x. x.id)
            (sym (confirm_allowed-id asked (allowed_threshold_keys asked.module_id) e)))
        (subst (λ u. row (confirmation_of (record r { user_id = u })).id db.confirmations ≡ some c)
          same h)

after_insert-state :
    (confirmation : ThresholdConfirmation) (db : Database)
    (i : Option Error × List PendingConfirmation)
    → (after_insert confirmation db i).0 ≡ record db { confirmations = i.1 }
after_insert-state confirmation db (none, table) = refl
after_insert-state confirmation db (some e, table) = refl

after_record-none :
    (r : ThresholdSetRequest) (db : Database) (i : Option Error × List EventRow)
    → i.0 ≡ none
    → after_record r db i ≡ (record db { events = i.1 }, ok (applied_text r))
after_record-none r db (none, events) h = refl
after_record-none r db (some e, events) h = cc

-- The state with the override in force.
abbrev pub in_force : Provider → ThresholdSetRequest → Database → Database
in_force provider r db = record db {
  overrides = upsert_row (stored_row provider r r.user_id) db.overrides;
  events = override_event provider r r.user_id ∷ db.events;
}

own_request :
    (user_id : ℤ) (c : PendingConfirmation)
    → c.requested_by_user_id ≡ user_id
    → is_wrong_requester (some user_id) c ≡ false
own_request user_id c h = ground arith

module _ (confirming : Provider) (r : ThresholdSetRequest) (payload : String) (db : Database) where
  stored_in_force :
      confirming.override_faults.upsert ≡ none
      → (insert_event confirming.format_time confirming.event_faults event_security
          "threshold override applied"
          (override_fields r r.user_id)
          confirming.now
          db.events).0
        ≡ none
      → store_override confirming r r.user_id db (
          upserted confirming.override_faults.upsert
            (stored_row confirming r r.user_id)
            db.overrides)
        ≡ (in_force confirming r db, ok (applied_text r))
  stored_in_force uf ef =
      let stored : Database = record db {
        overrides = upsert_row (stored_row confirming r r.user_id) db.overrides;
      } in
      let i =
        insert_event confirming.format_time confirming.event_faults event_security
          "threshold override applied" (override_fields r r.user_id) confirming.now db.events in
      ap
        (λ u.
          store_override confirming r r.user_id db
            (upserted u (stored_row confirming r r.user_id) db.overrides))
        uf
      ∙ after_record-none r stored i ef
      ∙ ap (λ events. (record stored { events = events }, ok (applied_text r)))
          (insert_event-none confirming.format_time confirming.event_faults event_security
            "threshold override applied" (override_fields r r.user_id) confirming.now db.events ef)

  consumed_in_force :
      (c : PendingConfirmation)
      → c.requested_by_user_id ≡ r.user_id
      → confirming.override_faults.upsert ≡ none
      → (insert_event confirming.format_time confirming.event_faults event_security
          "threshold override applied"
          (override_fields r r.user_id)
          confirming.now
          db.events).0
        ≡ none
      → confirming.decode_request c.payload_json ≡ ok r
      → build_threshold_confirmation r ≡ ok (confirmation_of r)
      → validate_change confirming db r ≡ none
      → apply_request confirming c r.user_id db (confirming.decode_request c.payload_json)
        ≡ (in_force confirming r db, ok (applied_text r))
  unfolding upsert_threshold_override
  consumed_in_force c same uf ef hd hb hv =
      ap (apply_request confirming c r.user_id db) hd
      ∙ ap (apply_built confirming c r r.user_id db) hb
      ∙ ap (apply_valid confirming c r r.user_id db) hv
      ∙ ap
          (λ u.
            store_override confirming r r.user_id db
              (upserted confirming.override_faults.upsert (stored_row confirming r u) db.overrides))
          same
      ∙ stored_in_force uf ef

-- A change of an allowed threshold that validation accepts, now and when it is confirmed, comes into
-- force: while the database answers and the request is read as it was written, a user who asks for
-- it with nothing pending for it, and confirms it before it expires, is told that it is applied; the
-- value is stored with the user and the time, the event is recorded, and nothing stays pending.
pub confirm-build_set_confirmation :
    (asking confirming : Provider) (duplicate : Error) (r : ThresholdSetRequest) (payload : String)
    (db : Database)
    → asking.confirmation_faults ≡ no_faults duplicate
    → confirming.confirmation_faults ≡ no_faults duplicate
    → confirming.override_faults.upsert ≡ none
    → (insert_event confirming.format_time confirming.event_faults event_security
        "threshold override applied"
        (override_fields r r.user_id)
        confirming.now
        db.events).0
      ≡ none
    → asking.encode_request r ≡ ok payload
    → confirming.decode_request payload ≡ ok r
    → build_threshold_confirmation r ≡ ok (confirmation_of r)
    → validate_change asking db r ≡ none
    → validate_change confirming db r ≡ none
    → row (confirmation_of r).id db.confirmations ≡ none
    → confirming.now <ℤ asking.now +ℤ effective_ttl asking.ttl
    → confirm confirming r.user_id
        (confirmation_of r).id
        (build_set_confirmation asking r.user_id r.module_id r.key r.value db).0
      ≡ (in_force confirming r db, ok (applied_text r))
unfolding confirm build_set_confirmation
confirm-build_set_confirmation asking confirming duplicate r payload db af cf uf ef he hd hb hv hv'
      free early =
    let asked = confirmation_of r in
    let c = pending_of asking asked payload r.user_id in
    let inserted = insert_pending_confirmation (no_faults duplicate) c db.confirmations in
    let building : build_set_confirmation asking r.user_id r.module_id r.key r.value db
        ≡ after_insert asked db inserted =
      ap (request_built asking r.user_id db) hb
      ∙ ap (insert_valid asking asked r.user_id db) hv
      ∙ ap (insert_request asking asked r.user_id db) he
      ∙ ap (λ f. after_insert asked db (insert_pending_confirmation f c db.confirmations)) af in
    let consuming =
      consume-insert duplicate c confirming.now (some r.user_id) db.confirmations free
        (own_request r.user_id c refl) early in
    ap (λ b. confirm confirming r.user_id asked.id b.0) building
    ∙ ap (confirm confirming r.user_id asked.id) (after_insert-state asked db inserted)
    ∙ ap
        (λ f.
          let consumed =
            consume_pending_confirmation f asked.id confirming.now (some r.user_id) inserted.1 in
          apply_consumed confirming asked.id r.user_id (record db { confirmations = consumed.1 })
            consumed.0)
        cf
    ∙ ap
        (λ (k : Result PendingConfirmation × List PendingConfirmation).
          apply_consumed confirming asked.id r.user_id (record db { confirmations = k.1 }) k.0)
        consuming.1
    ∙ consumed_in_force confirming r payload db c refl uf ef hd hb hv'
