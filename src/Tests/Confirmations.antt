-- ===== src/Tests/Confirmations.antt =====
-- internal/storage/repositories.go: a confirmation is inserted and consumed.
use withdraw_bot.Prelude.{pos, none, some, List, [], ◌∷◌, ◌≡◌, refl, arith}
use withdraw_bot.Errors.{Error, ok, err}
use withdraw_bot.Storage.{
  PendingConfirmation, insert_pending_confirmation, consume_pending_confirmation,
  select_pending_confirmation, delete_confirmation,
}
use withdraw_bot.Storage.Confirmations.{no_faults, consume-consume, consume-insert}

abbrev exit_now : PendingConfirmation
exit_now = record {
  id = "c1";
  kind = "withdraw";
  payload_json = "{}";
  requested_by_user_id = pos 7;
  expires_at = pos 100;
  created_at = pos 40;
}

abbrev raise_threshold : PendingConfirmation
raise_threshold = record {
  id = "c2";
  kind = "threshold";
  payload_json = "{}";
  requested_by_user_id = pos 8;
  expires_at = pos 90;
  created_at = pos 30;
}

abbrev duplicate : Error
duplicate = Error.message "constraint failed"

abbrev both : List PendingConfirmation
both = raise_threshold ∷ exit_now ∷ []

consume-consume_example :
    (e : Error) × (consume_pending_confirmation
        (no_faults duplicate)
        "c1"
        (pos 51)
        none
        (consume_pending_confirmation (no_faults duplicate) "c1" (pos 50) (some (pos 7)) both).1
      ≡ (
        err e,
        (consume_pending_confirmation (no_faults duplicate) "c1" (pos 50) (some (pos 7)) both).1,
      ))
unfolding consume_pending_confirmation select_pending_confirmation delete_confirmation
consume-consume_example =
    consume-consume (no_faults duplicate) (no_faults duplicate) "c1" (pos 50) (pos 51)
      (some (pos 7)) none both refl

consume-insert_example :
    ((insert_pending_confirmation (no_faults duplicate) exit_now (raise_threshold ∷ [])).0 ≡ none)
    × (consume_pending_confirmation
          (no_faults duplicate)
          "c1"
          (pos 50)
          (some (pos 7))
          (insert_pending_confirmation (no_faults duplicate) exit_now (raise_threshold ∷ [])).1
        ≡ (ok exit_now, raise_threshold ∷ []))
consume-insert_example =
    consume-insert duplicate exit_now (pos 50) (some (pos 7)) (raise_threshold ∷ []) refl refl
      (omega arith)
