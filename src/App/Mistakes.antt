-- ===== src/App/Mistakes.antt =====
-- internal/interactions/telegram/service.go with internal/app/providers.go: what a command that fails
-- does to the bot.
use withdraw_bot.Prelude.{
  ℤ, String, true, Option, none, some, List, [], ◌∷◌, ◌<>◌, ◌≡◌, ap, ◌∙◌, arith, if◌then◌else◌,
}
use withdraw_bot.Errors.{Error, Result, ok, err}
use withdraw_bot.Core.{Time, command_confirm}
use withdraw_bot.Storage.{PendingConfirmation, row, consume_pending_confirmation}
use withdraw_bot.Storage.Confirmations.{no_faults}
use withdraw_bot.Providers.Database.{Database, Provider}
use withdraw_bot.Providers.Thresholds.{apply_consumed, confirm}
use withdraw_bot.Telegram.Commands.{Authorization, check, parse_command}
use withdraw_bot.Telegram.Types.{Update, Message, PollRound, LoopEnd, is_command_text, next_offset}
use withdraw_bot.Telegram.Types as Telegram
use withdraw_bot.Telegram.Dispatch.{dispatch}
use withdraw_bot.Telegram.Service.{
  checked, rejected, respond, record_security_reject, handle_command, answer, handle_content,
  handle_update, handle_batch, after_batch, after_answer, poll,
}
use withdraw_bot.Withdraw.Types as Withdraw
use withdraw_bot.App.Runtime.{Dependencies, Runtime}
use withdraw_bot.App.Services.{
  World, ServiceDependencies, in_database, provider_of, telegram_service_of,
}

-- The error of a confirmation that is not there.
abbrev pub not_found : String → Error
not_found id = Error.message ("pending confirmation \"" <> id <> "\" not found")

consume_missing :
    (d : Error) (id : String) (at : Time) (user : Option ℤ) (table : List PendingConfirmation)
    → row id table ≡ none
    → consume_pending_confirmation (no_faults d) id at user table ≡ (err (not_found id), table)
unfolding consume_pending_confirmation
consume_missing d id at user table h = ground arith

confirm_missing :
    (provider : Provider) (d : Error) (user_id : ℤ) (id : String) (db : Database)
    → provider.confirmation_faults ≡ no_faults d
    → row id db.confirmations ≡ none
    → confirm provider user_id id db ≡ (db, err (not_found id))
unfolding confirm
confirm_missing provider d user_id id db answers h =
    let consumed =
      ap (λ f. consume_pending_confirmation f id provider.now (some user_id) db.confirmations)
        answers
      ∙ consume_missing d id provider.now (some user_id) db.confirmations h in
    ap (λ x. apply_consumed provider id user_id (record db { confirmations = x.1 }) x.0) consumed

-- A message of an allowed user in the chat of the bot that asks to confirm what is not there.
pub record IsMistake (auth : Authorization) (w : World) (u : Update) : Type 0 where
  pub id : String
  pub user_id : ℤ
  pub text : String
  pub asked :
      u.message
      ≡ some (record { chat_id = some (auth.chat_id); from_id = some user_id; text = text })
  pub is_text : is_command_text text ≡ true
  pub parsed : parse_command text ≡ record { name = command_confirm; args = id ∷ [] }
  pub is_allowed : check auth auth.chat_id user_id ≡ none
  pub missing : row id w.database.confirmations ≡ none

module _ (deps : Dependencies) (services : ServiceDependencies) (runtime : Runtime)
    (withdraw : Withdraw.Service) (d : Error)
    (answers : services.environment.confirmation_faults ≡ no_faults d) where
  abbrev pub service : Telegram.Service World
  service = telegram_service_of deps services runtime withdraw

  handle_command-mistake :
      (w : World) (id text : String) (user_id : ℤ)
      → parse_command text ≡ record { name = command_confirm; args = id ∷ [] }
      → check service.authorization service.authorization.chat_id user_id ≡ none
      → row id w.database.confirmations ≡ none
      → handle_command service service.authorization.chat_id user_id text w
        ≡ (w, err (not_found id))
  unfolding handle_command dispatch
  handle_command-mistake w id text user_id parsed allowed missing =
      let chat_id = service.authorization.chat_id in
      ap
        (λ c.
          checked c
            (λ e.
              rejected e (record_security_reject service (parse_command text) chat_id user_id w))
            (respond service chat_id (dispatch service (parse_command text) user_id w)))
        allowed
      ∙ ap (λ p. respond service chat_id (dispatch service p user_id w)) parsed
      ∙ ap (λ r. respond service chat_id (in_database w r))
          (confirm_missing (provider_of deps services runtime) d user_id id w.database answers
            missing)

  handle_update-mistake :
      (w : World) (u : Update)
      → (m : IsMistake service.authorization w u)
      → handle_update deps.error_text service u w ≡ (w, some (not_found m.id))
  unfolding handle_update
  handle_update-mistake w u m =
      let chat_id = service.authorization.chat_id in
      ap (λ c. handle_content deps.error_text service c w) m.asked
      ∙ ap
          (λ b.
            if b
            then answer deps.error_text service (handle_command service chat_id m.user_id m.text w)
            else (w, none))
          m.is_text
      ∙ ap (answer deps.error_text service)
          (handle_command-mistake w m.id m.text m.user_id m.parsed m.is_allowed m.missing)

  handle_batch-mistake :
      (w : World) (u : Update) (us : List Update) (offset : ℤ)
      → (m : IsMistake service.authorization w u)
      → handle_batch deps.error_text service (u ∷ us) offset w
        ≡ (next_offset offset u, (w, some (not_found m.id)))
  unfolding handle_batch
  handle_batch-mistake w u us offset m =
      ap
        (λ r.
          checked r.1 (λ failure. (next_offset offset u, (r.0, some failure)))
            (handle_batch deps.error_text service us (next_offset offset u) r.0))
        (handle_update-mistake w u m)

  -- A wrong command ends the bot: while the database answers, an allowed user who asks to confirm an id
  -- that is not in the table ends the loop over the updates with the error of the command, whatever
  -- updates and rounds are left. As this holds from every offset, so it does after each restart that is
  -- given this update first.
  pub poll-mistake :
      (token : String) (get : ℤ → Result (List Update)) (rounds : List PollRound) (offset : ℤ)
      (w : World) (u : Update) (us : List Update)
      → (m : IsMistake service.authorization w u) → get offset ≡ ok (u ∷ us)
      → poll deps.error_text service token (PollRound.get_updates get ∷ rounds) offset w
        ≡ (next_offset offset u, (w, LoopEnd.failed (not_found m.id)))
  unfolding poll
  poll-mistake token get rounds offset w u us m got =
      ap
        (λ a.
          after_answer deps.error_text service token offset w a
            (poll deps.error_text service token rounds))
        got
      ∙ ap (λ b. after_batch deps.error_text b (poll deps.error_text service token rounds))
          (handle_batch-mistake w u us offset m)
