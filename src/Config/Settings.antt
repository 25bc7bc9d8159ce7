-- ===== src/Config/Settings.antt =====
-- internal/config/config.go and env.go: the configuration and its validation, and the secrets.
use withdraw_bot.Prelude.{
  ℕ, ℤ, pos, String, Bool, true, false, Option, none, some, List, [], ◌∷◌, ◌==◌, leb_ℤ, is_zero,
  str_eq, codes, trim_text, split_text, ◌<>◌, if◌then◌else◌,
}
use withdraw_bot.Errors.{Error, Result, ok, err, ◌>>◌, fail_if, ◌orelse◌}
use withdraw_bot.Config.{validate_bps, parse_gwei}
use withdraw_bot.Config.Values.{ModuleConfig}

pub record AppConfig : Type 0 where
  pub monitor_interval : String
  pub data_dir : String

pub record EthereumConfig : Type 0 where
  pub chain_id : ℤ
  pub vault_address : String
  pub asset_symbol : String
  pub asset_decimals : ℕ
  pub receiver_address : String

pub record TelegramConfig : Type 0 where
  pub chat_id : ℤ
  pub allowed_user_ids : List ℤ
  pub daily_report_utc_time : String

pub record GasConfig : Type 0 where
  pub replacement_timeout : String
  pub gas_limit_buffer_bps : ℤ
  pub fee_bump_bps : ℤ
  pub max_fee_per_gas_gwei : String
  pub max_priority_fee_per_gas_gwei : String

pub record LogConfig : Type 0 where
  pub file_path : String
  pub max_size_mb : ℤ
  pub max_backups : ℤ
  pub max_age_days : ℤ

pub record Config : Type 0 where
  pub app : AppConfig
  pub ethereum : EthereumConfig
  pub telegram : TelegramConfig
  pub gas : GasConfig
  pub logs : LogConfig
  pub modules : List (String × ModuleConfig)

abbrev pub is_empty {ℓ} : {A : Type ℓ} → List A → Bool
is_empty [] = true
is_empty (_ ∷ _) = false

abbrev pub required_text : String → String → Option Error
required_text field value = fail_if (str_eq value "") (Error.message (field <> " is required"))

-- The error of a duration that is read, which must be positive.
abbrev pub positive_duration : String → Result ℤ → Option Error
positive_duration field (err e) = some (Error.wrapped (field <> " must be a Go duration") e)
positive_duration field (ok d) =
    fail_if (leb_ℤ d (pos 0)) (Error.message (field <> " must be positive"))

abbrev pub readable {ℓ} : {A : Type ℓ} → Result A → Option Error
readable (ok _) = none
readable (err e) = some e

-- `parse_duration` is `time.ParseDuration`.
module _ (parse_duration : String → Result ℤ) where
  -- `Config.Validate`
  unfoldable pub validate : Config → Option Error
  unfolding validate_bps parse_gwei
  validate cfg =
      required_text "app.monitor_interval" cfg.app.monitor_interval
      orelse positive_duration "app.monitor_interval" (parse_duration cfg.app.monitor_interval)
      orelse required_text "app.data_dir" cfg.app.data_dir
      orelse fail_if (leb_ℤ cfg.ethereum.chain_id (pos 0))
          (Error.message "ethereum.chain_id must be positive")
      orelse required_text "ethereum.vault_address" cfg.ethereum.vault_address
      orelse fail_if (cfg.ethereum.asset_decimals == 0)
          (Error.message "ethereum.asset_decimals is required")
      orelse fail_if (is_zero cfg.telegram.chat_id) (Error.message "telegram.chat_id is required")
      orelse fail_if (is_empty cfg.telegram.allowed_user_ids)
          (Error.message "telegram.allowed_user_ids must not be empty")
      orelse required_text "gas.replacement_timeout" cfg.gas.replacement_timeout
      orelse positive_duration "gas.replacement_timeout"
          (parse_duration cfg.gas.replacement_timeout)
      orelse validate_bps "gas.gas_limit_buffer_bps" cfg.gas.gas_limit_buffer_bps
      orelse validate_bps "gas.fee_bump_bps" cfg.gas.fee_bump_bps
      orelse readable (parse_gwei "gas.max_fee_per_gas_gwei" (codes cfg.gas.max_fee_per_gas_gwei))
      orelse readable (
          parse_gwei "gas.max_priority_fee_per_gas_gwei"
            (codes cfg.gas.max_priority_fee_per_gas_gwei))

  abbrev pub validated : Config → Result Config
  validated cfg = validate cfg >> ok cfg

  -- `Load`, from what the file and the YAML decoder answer.
  unfoldable load : String → Result String → (String → Result Config) → Result Config
  unfolding validate
  load path (err e) unmarshal = err (Error.wrapped ("read config " <> path) e)
  load path (ok contents) unmarshal = elim (unmarshal contents) [
    | err e ↦ err (Error.wrapped ("parse config " <> path) e)
    | ok cfg ↦ validated cfg
  ]

pub record Secrets : Type 0 where
  pub private_key : String
  pub telegram_token : String
  pub primary_rpc_url : String
  pub fallback_rpc_urls : List String

-- The parts between the commas that are not blank.
abbrev pub fallback_urls : List String → List String
fallback_urls [] = []
fallback_urls (raw ∷ rest) =
    let below = fallback_urls rest in
    if str_eq (trim_text raw) "" then below else trim_text raw ∷ below

abbrev pub split_fallbacks : String → List String
split_fallbacks text = if str_eq text "" then [] else fallback_urls (split_text 44 text)

-- `LoadSecretsFromEnv`, from the environment.
unfoldable load_secrets_from_env : (String → String) → Result Secrets
load_secrets_from_env getenv =
    let private_key = trim_text (getenv "WITHDRAW_BOT_PRIVATE_KEY") in
    let token = trim_text (getenv "WITHDRAW_BOT_TELEGRAM_BOT_TOKEN") in
    let primary = trim_text (getenv "WITHDRAW_BOT_ETHEREUM_PRIMARY_RPC_URL") in
    (required_text "WITHDRAW_BOT_PRIVATE_KEY" private_key
      orelse required_text "WITHDRAW_BOT_TELEGRAM_BOT_TOKEN" token
      orelse required_text "WITHDRAW_BOT_ETHEREUM_PRIMARY_RPC_URL" primary)
    >> ok (record {
      private_key = private_key;
      telegram_token = token;
      primary_rpc_url = primary;
      fallback_rpc_urls =
          split_fallbacks (trim_text (getenv "WITHDRAW_BOT_ETHEREUM_FALLBACK_RPC_URLS"));
    })
