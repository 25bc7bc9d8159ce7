-- ===== src/Telegram/Types.antt =====
-- internal/interactions/telegram/service.go: the data of the bot, and the texts that it sends. `W` is
-- the state of all that the bot calls.
use withdraw_bot.Prelude.{
  ℕ, ℤ, pos, pos_part, ◌-◌, ◌+ℤ◌, String, Bool, ◌||◌, Option, List, [], ◌∷◌, leb, leb_ℤ, str_eq,
  decimal, ◌<>◌, if◌then◌else◌, trim_text, has_prefix, char_count, take_text, replace_all,
}
use withdraw_bot.Errors.{Error, Result, ok, err}
use withdraw_bot.Core.{
  command_stats, command_withdraw, command_confirm, command_thresholds, command_threshold_set,
  command_logs, command_help,
}
use withdraw_bot.Withdraw.Types.{WithdrawalStatus, WithdrawalResult}
use withdraw_bot.Telegram.Commands.{Authorization, ParsedCommand}

pub record CommandResponse : Type 0 where
  pub chat_id : ℤ
  pub text : String

module _ (W : Type 0) where
  pub record ThresholdService : Type 0 where
    pub list : W → W × Result String
    pub build_set_confirmation : ℤ → String → String → String → W → W × Result String
    pub confirm : ℤ → String → W → W × Result String

  -- Who sends a message to a chat: the sender, the bot with its token, or nobody.
  pub data Sender : Type 0 where
    sender : (ℤ → String → W → W × Option Error) → Sender
    bot : String → (ℤ → String → W → W × Option Error) → Sender
    nobody : Sender

  -- `events` records the fields of a rejected command as an event of the type security.
  pub record Service : Type 0 where
    pub authorization : Authorization
    pub reports : Option (W → W × Result String)
    pub withdraw : Option (W → W × Result WithdrawalResult)
    pub thresholds : Option ThresholdService
    pub logs : Option (Bool → W → W × Result String)
    pub events : Option (List (String × String) → W → W × Option Error)
    pub sender : Sender
    pub max_response_chars : ℤ

abbrev pub max_chars : ℤ → ℕ
max_chars n = if leb_ℤ n (pos 0) then 3500 else pos_part n

-- `boundResponse`
unfoldable pub bound_response : ℤ → String → String
bound_response limit text =
    if leb (char_count text) (max_chars limit)
    then text
    else (if leb (max_chars limit) 3
        then take_text (max_chars limit) text
        else take_text (max_chars limit - 3) text <> "...")

abbrev pub is_command_text : String → Bool
is_command_text text = has_prefix (trim_text text) "/"

abbrev pub is_command : String → Bool
is_command name =
    str_eq name command_stats
    || str_eq name command_withdraw
    || str_eq name command_confirm
    || str_eq name command_thresholds
    || str_eq name command_threshold_set
    || str_eq name command_logs
    || str_eq name command_help

abbrev pub sanitized_command_name : String → String
sanitized_command_name name = if is_command name then name else "unknown"

abbrev pub help_text : String
help_text =
    "/stats\n/withdraw\n/confirm <id>\n/thresholds\n/threshold set <module> <key> <value>\n/logs\n/logs info\n/help"

abbrev pub status_text : WithdrawalStatus → String
status_text WithdrawalStatus.unset = ""
status_text WithdrawalStatus.noop = "noop"
status_text WithdrawalStatus.simulation_failed = "simulation_failed"
status_text WithdrawalStatus.simulated = "simulated"
status_text WithdrawalStatus.submitted = "submitted"

abbrev pub withdraw_response : Result WithdrawalResult → Result String
withdraw_response (err e) = err e
withdraw_response (ok result) =
    if result.noop
    then ok "withdraw dry run: no shares to withdraw"
    else ok ("withdraw dry run: " <> status_text result.status)

-- `sanitizeTelegramError`; `error_text` is `err.Error()`.
abbrev pub sanitize_telegram_error : (Error → String) → String → String → Error → Error
sanitize_telegram_error error_text operation token e = Error.message (
    operation
    <> ": "
    <> (if str_eq token "" then error_text e else replace_all (error_text e) token "[REDACTED]"))

-- What a chat sends; a message may be without a chat or a sender.
pub record Message : Type 0 where
  pub chat_id : Option ℤ
  pub from_id : Option ℤ
  pub text : String

pub record Update : Type 0 where
  pub update_id : ℤ
  pub message : Option Message

-- What the loop over a channel of updates waits for: an update, the end of the channel, or the end of
-- the context with its error.
pub data Incoming : Type 0 where
  update : Update → Incoming
  channel_closed : Incoming
  done : Error → Incoming

-- What one round of the polling finds: the end of the context, or what the bot answers to an offset.
pub data PollRound : Type 0 where
  done : Error → PollRound
  get_updates : (ℤ → Result (List Update)) → PollRound

-- How a loop over updates ends, if it does.
pub data LoopEnd : Type 0 where
  running closed : LoopEnd
  failed : Error → LoopEnd

-- The event of a rejected command.
abbrev pub reject_fields : ParsedCommand → ℤ → ℤ → List (String × String)
reject_fields command chat_id user_id =
    ("chat_id", decimal chat_id)
    ∷ ("user_id", decimal user_id)
    ∷ ("command", sanitized_command_name command.name)
    ∷ []

-- `if update.UpdateID >= config.Offset { config.Offset = update.UpdateID + 1 }`
abbrev pub next_offset : ℤ → Update → ℤ
next_offset offset u = if leb_ℤ offset u.update_id then u.update_id +ℤ pos 1 else offset
