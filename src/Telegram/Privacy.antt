-- ===== src/Telegram/Privacy.antt =====
-- internal/interactions/telegram: what a chat or a user that is not authorized can do.
use withdraw_bot.Prelude.{
  ℤ, String, if◌then◌else◌, ◌≡◌, refl, ap, ◌∙◌, Bool-cases, Option-cases, inl, inr, List, [], ◌∷◌,
  Option, none, some,
}
use withdraw_bot.Errors.{Error}
use withdraw_bot.Telegram.Commands.{Authorization, check, parse_command}
use withdraw_bot.Telegram.Types.{
  Service, Message, Incoming, LoopEnd, is_command_text, reject_fields,
}
use withdraw_bot.Telegram.Dispatch.{dispatch}
use withdraw_bot.Telegram.Bounds.{Among, check-Among}
use withdraw_bot.Telegram.Service.{
  wrap_record, record_reject, checked, handle_content, record_security_reject, rejected,
  handle_command, answer, handle_message, handle_update, consume_updates, respond,
}

-- The chat and the user of a message, where it has both, are not those of the bot: another chat, or a
-- user who is not in the list.
abbrev pub IsRejected : Authorization → Option ℤ → Option ℤ → Type 0
IsRejected auth (some chat_id) (some user_id) =
    ¬ ((chat_id ≡ auth.chat_id) × Among user_id auth.allowed_user_ids)
IsRejected auth (some chat_id) none = Unit
IsRejected auth none from_id = Unit

abbrev pub IsRejectedMessage : Authorization → Option Message → Type 0
IsRejectedMessage auth none = Unit
IsRejectedMessage auth (some m) = IsRejected auth m.chat_id m.from_id

check-IsRejected :
    (auth : Authorization) (chat_id user_id : ℤ)
    → IsRejected auth (some chat_id) (some user_id)
    → (e : Error) × (check auth chat_id user_id ≡ some e)
check-IsRejected auth chat_id user_id h = elim (Option-cases (check auth chat_id user_id)) [
  | inl passed ↦ absurd (h ((check-Among auth chat_id user_id).0 passed))
  | inr (e, failed) ↦ (e, failed)
]

-- All updates that come in are rejected.
abbrev pub AllRejected : Authorization → List Incoming → Type 0
AllRejected auth [] = Unit
AllRejected auth (Incoming.update u ∷ more) =
    IsRejectedMessage auth u.message × AllRejected auth more
AllRejected auth (Incoming.channel_closed ∷ more) = Unit
AllRejected auth (Incoming.done e ∷ more) = Unit

-- The recorder of the events changes nothing of what `view` shows.
abbrev pub RecordsBeside {ℓ} :
    {W : Type 0} {A : Type ℓ}
    → (W → A)
    → Option (List (String × String) → W → W × Option Error)
    → Type ℓ
RecordsBeside {W} view none = Unit
RecordsBeside {W} view (some record_event) =
    (fields : List (String × String)) (w : W) → view (record_event fields w).0 ≡ view w

module _ {ℓ} {W : Type 0} {A : Type ℓ} (error_text : Error → String) (view : W → A)
    (service : Service W) (beside : RecordsBeside view service.events) where
  wrap_record-state : (r : W × Option Error) → (wrap_record r).0 ≡ r.0
  wrap_record-state (w, none) = refl
  wrap_record-state (w, some e) = refl

  record_reject-view :
      (events : Option (List (String × String) → W → W × Option Error))
      (fields : List (String × String)) (w : W)
      → RecordsBeside view events
      → view (record_reject events fields w).0 ≡ view w
  record_reject-view none fields w h = refl
  record_reject-view (some record_event) fields w h =
      ap view (wrap_record-state (record_event fields w)) ∙ h fields w

  answer-rejected :
      (e : Error) (r : W × Option Error) → (answer error_text service (rejected e r)).0 ≡ r.0
  answer-rejected e (w, none) = refl
  answer-rejected e (w, some x) = refl

  handle_message-view :
      (chat_id from_id : Option ℤ) (text : String) (w : W)
      → IsRejected service.authorization chat_id from_id
      → view (handle_message error_text service chat_id from_id text w).0 ≡ view w
  unfolding handle_command record_security_reject
  handle_message-view none from_id text w h = refl
  handle_message-view (some chat_id) none text w h = refl
  handle_message-view (some chat_id) (some user_id) text w strange =
      let (e, h) = check-IsRejected service.authorization chat_id user_id strange in
      let command = parse_command text in
      let r = record_security_reject service command chat_id user_id w in
      let go_on = respond service chat_id (dispatch service command user_id w) in
      let refused : view
            (answer error_text service (handle_command service chat_id user_id text w)).0
          ≡ view w =
        ap (λ c. view (answer error_text service (checked c (λ x. rejected x r) go_on)).0) h
        ∙ ap view (answer-rejected e r)
        ∙ record_reject-view service.events (reject_fields command chat_id user_id) w beside in
      elim (Bool-cases (is_command_text text)) [
        | inl is ↦
            ap
              (λ b.
                view
                  (if b
                    then answer error_text service (handle_command service chat_id user_id text w)
                    else (w, none)).0)
              is
            ∙ refused
        | inr not ↦
            ap
              (λ b.
                view
                  (if b
                    then answer error_text service (handle_command service chat_id user_id text w)
                    else (w, none)).0)
              not
      ]

  handle_content-view :
      (message : Option Message) (w : W)
      → IsRejectedMessage service.authorization message
      → view (handle_content error_text service message w).0 ≡ view w
  handle_content-view none w h = refl
  handle_content-view (some m) w h = handle_message-view m.chat_id m.from_id m.text w h

  checked-state :
      (r : W × Option Error) (rest : W × LoopEnd)
      → view rest.0 ≡ view r.0
      → view (checked r.1 (λ failure. (r.0, LoopEnd.failed failure)) rest).0 ≡ view r.0
  checked-state (w, none) rest h = h
  checked-state (w, some e) rest h = refl

  -- Updates from another chat than that of the bot, or from a user who is not in its list, reach nothing
  -- but the record of the events: whatever they send, and however often, every part of the state of the bot and its services that this record
  -- leaves alone is as it was.
  pub consume_updates-AllRejected :
      (incoming : List Incoming) (w : W)
      → AllRejected service.authorization incoming
      → view (consume_updates error_text service incoming w).0 ≡ view w
  unfolding consume_updates handle_update
  consume_updates-AllRejected [] w h = refl
  consume_updates-AllRejected (Incoming.channel_closed ∷ more) w h = refl
  consume_updates-AllRejected (Incoming.done e ∷ more) w h = refl
  consume_updates-AllRejected (Incoming.update u ∷ more) w h =
      let r = handle_update error_text service u w in
      checked-state r (consume_updates error_text service more r.0)
        (consume_updates-AllRejected more r.0 h.1)
      ∙ handle_content-view u.message w h.0
