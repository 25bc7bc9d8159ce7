-- ===== src/Telegram/Dispatch.antt =====
-- internal/interactions/telegram/service.go: what each command does.
use withdraw_bot.Prelude.{
  ℤ, String, Bool, true, false, ◌||◌, none, some, List, [], ◌∷◌, str_eq, ◌<>◌, if◌then◌else◌,
}
use withdraw_bot.Errors.{Result, ok}
use withdraw_bot.Core.{
  command_stats, command_withdraw, command_confirm, command_thresholds, command_threshold_set,
  command_logs, command_help,
}
use withdraw_bot.Withdraw.Types.{WithdrawalResult}
use withdraw_bot.Telegram.Commands.{ParsedCommand}
use withdraw_bot.Telegram.Types.{Service, help_text, withdraw_response}

module _ {W : Type 0} where
  abbrev pub unavailable : String → W → W × Result String
  unavailable text w = (w, ok text)

  unfoldable pub stats : Service W → W → W × Result String
  stats service w = elim service.reports [
    | none ↦ (w, ok "stats unavailable")
    | some answer ↦ answer w
  ]

  abbrev pub after_dry_run : W × Result WithdrawalResult → W × Result String
  after_dry_run (w, result) = (w, withdraw_response result)

  unfoldable pub withdraw : Service W → W → W × Result String
  withdraw service w = elim service.withdraw [
    | none ↦ (w, ok "withdraw unavailable")
    | some dry_run ↦ after_dry_run (dry_run w)
  ]

  unfoldable pub confirm : Service W → List String → ℤ → W → W × Result String
  confirm service (id ∷ []) user_id w = elim service.thresholds [
    | none ↦ (w, ok "confirm unavailable")
    | some t ↦ t.confirm user_id id w
  ]
  confirm service _ user_id w = (w, ok "usage: /confirm <id>")

  unfoldable pub thresholds : Service W → W → W × Result String
  thresholds service w = elim service.thresholds [
    | none ↦ (w, ok "thresholds unavailable")
    | some t ↦ t.list w
  ]

  abbrev pub set_usage : W → W × Result String
  set_usage w = (w, ok "usage: /threshold set <module> <key> <value>")

  unfoldable threshold_set : Service W → List String → ℤ → W → W × Result String
  threshold_set service (sub ∷ module_id ∷ key ∷ value ∷ []) user_id w =
      if str_eq sub "set"
      then elim service.thresholds [
        | none ↦ (w, ok "threshold updates unavailable")
        | some t ↦ t.build_set_confirmation user_id module_id key value w
      ]
      else set_usage w
  threshold_set service _ user_id w = set_usage w

  abbrev pub recent_logs : Service W → Bool → W → W × Result String
  recent_logs service include_info w = elim service.logs [
    | none ↦ (w, ok "logs unavailable")
    | some recent ↦ recent include_info w
  ]

  unfoldable pub logs : Service W → List String → W → W × Result String
  logs service [] w = recent_logs service false w
  logs service (arg ∷ []) w =
      if str_eq arg "info" then recent_logs service true w else (w, ok "usage: /logs [info]")
  logs service _ w = (w, ok "usage: /logs [info]")

  unfoldable pub dispatch : Service W → ParsedCommand → ℤ → W → W × Result String
  unfolding stats withdraw confirm thresholds threshold_set logs
  dispatch service command user_id w =
      if str_eq command.name command_stats
      then stats service w
      else (if str_eq command.name command_withdraw
          then withdraw service w
          else (if str_eq command.name command_confirm
              then confirm service command.args user_id w
              else (if str_eq command.name command_thresholds
                  then thresholds service w
                  else (if str_eq command.name command_threshold_set
                      then threshold_set service command.args user_id w
                      else (if str_eq command.name command_logs
                          then logs service command.args w
                          else (if str_eq command.name command_help || str_eq command.name ""
                              then (w, ok help_text)
                              else (w, ok ("unknown command: " <> command.name))))))))
