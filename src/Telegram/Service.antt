-- ===== src/Telegram/Service.antt =====
-- internal/interactions/telegram/service.go: commands, alerts and the loops over the updates.
use withdraw_bot.Prelude.{ℤ, pos, String, Option, none, some, List, [], ◌∷◌, str_eq, if◌then◌else◌}
use withdraw_bot.Errors.{Error, Sentinel, Result, ok, err, is_error}
use withdraw_bot.Telegram.Commands.{check, ParsedCommand, parse_command}
use withdraw_bot.Telegram.Types.{
  CommandResponse, Sender, Service, bound_response, is_command_text, sanitize_telegram_error,
  Message, Update, Incoming, PollRound, LoopEnd, reject_fields, next_offset,
}
use withdraw_bot.Telegram.Dispatch.{dispatch}

-- The branches of a check.
abbrev pub checked {ℓ} : {A : Type ℓ} → Option Error → (Error → A) → A → A
checked (some e) refuse go_on = refuse e
checked none refuse go_on = go_on

module _ {W : Type 0} where
  abbrev pub wrap_record : W × Option Error → W × Option Error
  wrap_record (w, none) = (w, none)
  wrap_record (w, some e) = (w, some (Error.wrapped "record telegram security reject" e))

  abbrev pub record_reject :
      Option (List (String × String) → W → W × Option Error)
      → List (String × String)
      → W
      → W × Option Error
  record_reject none fields w = (w, none)
  record_reject (some record_event) fields w = wrap_record (record_event fields w)

  unfoldable pub record_security_reject : Service W → ParsedCommand → ℤ → ℤ → W → W × Option Error
  record_security_reject service command chat_id user_id w =
      record_reject service.events (reject_fields command chat_id user_id) w

  -- The rejection, or the error of its record.
  abbrev pub rejected : Error → W × Option Error → W × Result CommandResponse
  rejected e (w, none) = (w, err e)
  rejected e (w, some failure) = (w, err failure)

  abbrev pub respond : Service W → ℤ → W × Result String → W × Result CommandResponse
  respond service chat_id (w, err e) = (w, err e)
  respond service chat_id (w, ok text) =
      (w, ok (record { chat_id = chat_id; text = bound_response service.max_response_chars text }))

  unfoldable pub handle_command : Service W → ℤ → ℤ → String → W → W × Result CommandResponse
  handle_command service chat_id user_id text w =
      checked (check service.authorization chat_id user_id)
        (λ e. rejected e (record_security_reject service (parse_command text) chat_id user_id w))
        (respond service chat_id (dispatch service (parse_command text) user_id w))

  module _ (error_text : Error → String) where
    abbrev pub sanitize_sent : String → W × Option Error → W × Option Error
    sanitize_sent token (w, none) = (w, none)
    sanitize_sent token (w, some e) =
        (w, some (sanitize_telegram_error error_text "send telegram message" token e))

    -- `sendText`, with which `SendAlert` and `SendReport` send to the authorized chat.
    unfoldable pub send_text : Service W → ℤ → String → W → W × Option Error
    send_text service chat_id text w =
        let bounded = bound_response service.max_response_chars text in
        elim service.sender [
          | Sender.sender send ↦ send chat_id bounded w
          | Sender.bot token send ↦ sanitize_sent token (send chat_id bounded w)
          | Sender.nobody ↦ (w, none)
        ]

    unfoldable pub send_alert : Service W → String → W → W × Option Error
    send_alert service text w = send_text service service.authorization.chat_id text w

    -- The answer to a command is sent; an unauthorized command is not answered.
    abbrev pub answer : Service W → W × Result CommandResponse → W × Option Error
    answer service (w, err e) =
        (w, if is_error e Sentinel.unauthorized_telegram_command then none else some e)
    answer service (w, ok response) =
        if str_eq response.text ""
        then (w, none)
        else send_text service response.chat_id response.text w

    abbrev pub handle_message : Service W → Option ℤ → Option ℤ → String → W → W × Option Error
    handle_message service (some chat_id) (some user_id) text w =
        if is_command_text text
        then answer service (handle_command service chat_id user_id text w)
        else (w, none)
    handle_message service _ _ text w = (w, none)

    abbrev pub handle_content : Service W → Option Message → W → W × Option Error
    handle_content service none w = (w, none)
    handle_content service (some m) w = handle_message service m.chat_id m.from_id m.text w

    unfoldable pub handle_update : Service W → Update → W → W × Option Error
    handle_update service update w = handle_content service update.message w

    -- The loop over the channel, on what it waits for.
    unfoldable pub consume_updates : Service W → List Incoming → W → W × LoopEnd
    consume_updates service [] w = (w, LoopEnd.running)
    consume_updates service (Incoming.channel_closed ∷ more) w = (w, LoopEnd.closed)
    consume_updates service (Incoming.done e ∷ more) w = (w, LoopEnd.failed e)
    consume_updates service (Incoming.update u ∷ more) w =
        let (after, e) = handle_update service u w in
        checked e (λ failure. (after, LoopEnd.failed failure)) (consume_updates service more after)

    -- The updates of one answer, one after the other: the offset, the state and the error after them.
    unfoldable pub handle_batch : Service W → List Update → ℤ → W → ℤ × (W × Option Error)
    handle_batch service [] offset w = (offset, (w, none))
    handle_batch service (u ∷ us) offset w =
        let (after, e) = handle_update service u w in
        checked e (λ failure. (next_offset offset u, (after, some failure)))
          (handle_batch service us (next_offset offset u) after)

    -- After the updates of one answer: the end by their error, or the next round.
    abbrev pub after_batch :
        ℤ × (W × Option Error) → (ℤ → W → ℤ × (W × LoopEnd)) → ℤ × (W × LoopEnd)
    after_batch (next, (after, some failure)) go_on = (next, (after, LoopEnd.failed failure))
    after_batch (next, (after, none)) go_on = go_on next after

    abbrev pub after_answer :
        Service W
        → String
        → ℤ
        → W
        → Result (List Update)
        → (ℤ → W → ℤ × (W × LoopEnd))
        → ℤ × (W × LoopEnd)
    after_answer service token offset w (err e) go_on = (
      offset,
      (w, LoopEnd.failed (sanitize_telegram_error error_text "get telegram updates" token e)),
    )
    after_answer service token offset w (ok us) go_on =
        after_batch (handle_batch service us offset w) go_on

    -- The rounds of `pollBotUpdates`, with the token of the bot.
    unfoldable pub poll : Service W → String → List PollRound → ℤ → W → ℤ × (W × LoopEnd)
    poll service token [] offset w = (offset, (w, LoopEnd.running))
    poll service token (PollRound.done e ∷ rounds) offset w = (offset, (w, LoopEnd.failed e))
    poll service token (PollRound.get_updates get ∷ rounds) offset w =
        after_answer service token offset w (get offset) (poll service token rounds)

    -- `Start`: the channel of the source, the bot with its token, or neither.
    unfoldable pub start :
        Service W
        → Option (Result (List Incoming))
        → Option (String × List PollRound)
        → W
        → W × LoopEnd
    start service (some (err e)) bot w = (w, LoopEnd.failed e)
    start service (some (ok incoming)) bot w = consume_updates service incoming w
    start service none none w = (w, LoopEnd.failed (Error.message "telegram bot is required"))
    start service none (some (token, rounds)) w = (poll service token rounds (pos 0) w).1
