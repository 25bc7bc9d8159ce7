-- ===== src/Telegram/Commands.antt =====
-- internal/interactions/telegram: commands.go (who may command, and what a text commands) and
-- thresholds.go (which thresholds a command may change).
use withdraw_bot.Prelude.{
  ℤ, String, Bool, false, ◌||◌, not, Option, none, some, List, [], ◌∷◌, str_eq, eqb_ℤ, decimal,
  ◌<>◌, if◌then◌else◌, trim_text, fields,
}
use withdraw_bot.Errors.{Error, Sentinel, Result, ok, err, fail_if, ◌orelse◌}
use withdraw_bot.Core.{
  MonitorModuleId, module_share_price_loss, module_withdraw_liquidity, module_vault_state,
}
use withdraw_bot.Overrides.Values.{
  key_loss_warn_bps, key_loss_urgent_bps, key_idle_warn, key_idle_urgent, key_change_severity,
}

-- The users of the map that are allowed.
pub record Authorization : Type 0 where
  pub chat_id : ℤ
  pub allowed_user_ids : List ℤ

abbrev pub is_allowed_user : ℤ → List ℤ → Bool
is_allowed_user user_id [] = false
is_allowed_user user_id (id ∷ ids) = eqb_ℤ id user_id || is_allowed_user user_id ids

abbrev pub unauthorized : String → Error
unauthorized text = Error.wrapped text (Error.sentinel Sentinel.unauthorized_telegram_command)

unfoldable pub check : Authorization → ℤ → ℤ → Option Error
check auth chat_id user_id =
    fail_if (not (eqb_ℤ chat_id auth.chat_id))
      (unauthorized ("telegram chat " <> decimal chat_id <> " is not authorized"))
    orelse fail_if (not (is_allowed_user user_id auth.allowed_user_ids))
        (unauthorized ("telegram user " <> decimal user_id <> " is not authorized"))

pub record ParsedCommand : Type 0 where
  pub name : String
  pub args : List String

abbrev pub command_of : List String → ParsedCommand
command_of [] = record { name = ""; args = [] }
command_of (name ∷ args) = record { name = name; args = args }

unfoldable pub parse_command : String → ParsedCommand
parse_command text = command_of (fields (trim_text text))

pub record ThresholdSetRequest : Type 0 where
  pub module_id : String
  pub key : String
  pub value : String
  pub user_id : ℤ

pub record ThresholdConfirmation : Type 0 where
  pub id : String
  pub request : ThresholdSetRequest
  pub message : String

abbrev pub text_in : String → List String → Bool
text_in text [] = false
text_in text (t ∷ ts) = str_eq text t || text_in text ts

-- `allowedThresholdKeys`
abbrev pub allowed_threshold_keys : MonitorModuleId → Option (List String)
allowed_threshold_keys id =
    if str_eq id module_share_price_loss
    then some (key_loss_warn_bps ∷ key_loss_urgent_bps ∷ [])
    else (if str_eq id module_withdraw_liquidity
        then some (key_idle_warn ∷ key_idle_urgent ∷ [])
        else (if str_eq id module_vault_state then some (key_change_severity ∷ []) else none))

abbrev pub confirmation_of : ThresholdSetRequest → ThresholdConfirmation
confirmation_of request = record {
  id = "threshold:" <> request.module_id <> ":" <> request.key <> ":" <> decimal request.user_id;
  request = request;
  message =
      "Confirm threshold override " <> request.module_id <> " " <> request.key <> "="
      <> request.value;
}

abbrev pub confirm_allowed :
    ThresholdSetRequest → Option (List String) → Result ThresholdConfirmation
confirm_allowed request none =
    err (Error.message ("unknown module \"" <> request.module_id <> "\""))
confirm_allowed request (some keys) =
    if text_in request.key keys
    then ok (confirmation_of request)
    else err (
        Error.message (
          "threshold key \"" <> request.key <> "\" is not allowed for module \""
          <> request.module_id <> "\""))

unfoldable pub build_threshold_confirmation : ThresholdSetRequest → Result ThresholdConfirmation
build_threshold_confirmation request =
    confirm_allowed request (allowed_threshold_keys request.module_id)
