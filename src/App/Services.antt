-- ===== src/App/Services.antt =====
-- internal/app/runtime.go: buildMonitorServices, which opens the log and the database and builds the
-- withdrawal service and the Telegram bot over them.
use withdraw_bot.Prelude.{
  ℕ, suc, ◌-◌, ℤ, pos, String, Option, none, some, List, str_eq, codes, if◌then◌else◌,
}
use withdraw_bot.Errors.{Error, Result, ok, err}
use withdraw_bot.Core.{event_security}
use withdraw_bot.Ethereum.{
  MultiClient, pending_nonce_at, suggest_gas_price, suggest_gas_tip_cap, send_transaction,
}
use withdraw_bot.Withdraw.Types.{AttemptRepository, TransactionSubmitter, WithdrawalResult}
use withdraw_bot.Withdraw.Types as Withdraw
use withdraw_bot.Withdraw.Execute.{dry_run_full_exit}
use withdraw_bot.Adapter.{morpho_adapter}
use withdraw_bot.Config.{parse_gwei}
use withdraw_bot.Config.Settings.{Config}
use withdraw_bot.Storage.Events.{insert_event}
use withdraw_bot.Monitor.{MonitorState, snapshot}
use withdraw_bot.Reports.{render_stats}
use withdraw_bot.Telegram.Types.{ThresholdService, Sender}
use withdraw_bot.Telegram.Types as Telegram
use withdraw_bot.Providers.Database.{Database, Provider}
use withdraw_bot.Providers.Thresholds.{build_set_confirmation, confirm}
use withdraw_bot.Providers.Listing.{list_thresholds}
use withdraw_bot.Providers.Logs.{recent}
use withdraw_bot.App.Runtime.{Held, Dependencies, Runtime, sanitize_runtime_error}

-- What the bot's services keep: the database, and the state of the monitor.
pub record World : Type 0 where
  pub database : Database
  pub monitor : MonitorState

-- What the calls of `buildMonitorServices` answer; `dir_of` and `join_path` are those of `filepath`.
-- `environment` is what the providers meet besides
-- the configuration, `send` what Telegram does with a message.
pub record ServiceDependencies : Type 0 where
  pub make_dir : String → Option Error
  pub dir_of : String → String
  pub join_path : String → String → String
  pub open_storage : String → Option Error
  pub new_telegram_bot : String → Option Error
  pub parse_duration : String → Result ℤ
  pub repository : AttemptRepository
  pub environment : Provider
  pub send : ℤ → String → World → World × Option Error

pub record Services : Type 0 where
  pub withdraw : Withdraw.Service
  pub telegram : Telegram.Service World

abbrev pub has_log : Config → Held → Held
has_log cfg held =
    if str_eq cfg.logs.file_path "" then held else record held { logs = suc held.logs }

-- The cleanup of the logger, and the one of the logger and the database.
abbrev pub log_cleanup : Config → Held → Held
log_cleanup cfg held =
    if str_eq cfg.logs.file_path "" then held else record held { logs = held.logs - 1 }

abbrev pub cleanup : Config → Held → Held
cleanup cfg held =
    let logged = log_cleanup cfg held in record logged { databases = logged.databases - 1 }

abbrev pub submitter_of : MultiClient → TransactionSubmitter
submitter_of client = record {
  pending_nonce_at = pending_nonce_at client;
  suggest_gas_price = suggest_gas_price client;
  suggest_gas_tip_cap = suggest_gas_tip_cap client;
  send_transaction = λ signed. send_transaction client (some signed);
}

-- A command over the database, as one over the world.
abbrev pub in_database {ℓ} : {A : Type ℓ} → World → Database × A → World × A
in_database w (db, answer) = (record w { database = db }, answer)

module _ (deps : Dependencies) (services : ServiceDependencies) (runtime : Runtime) where
  abbrev pub provider_of : Provider
  provider_of = record (services.environment) {
    modules = runtime.config.modules;
    asset_decimals = runtime.config.ethereum.asset_decimals;
    ttl = pos 0;
    limit = pos 0;
  }

  abbrev pub withdraw_service_of : ℤ → ℕ → ℕ → Withdraw.Service
  withdraw_service_of timeout max_fee max_tip = record {
    adapter = some (morpho_adapter deps.codec runtime.adapter);
    signer = some (runtime.signer);
    chain_id = some (runtime.config.ethereum.chain_id);
    submitter = some (submitter_of runtime.client);
    repository = some (services.repository);
    gas_policy = record {
      bump_bps = runtime.config.gas.fee_bump_bps;
      max_fee_cap = some (pos max_fee);
      max_tip_cap = some (pos max_tip);
    };
    gas_limit_buffer_bps = runtime.config.gas.gas_limit_buffer_bps;
    replacement_timeout = timeout;
    now = deps.now;
    format_time = services.environment.format_time;
  }

  abbrev pub record_event : List (String × String) → World → World × Option Error
  record_event fields w =
      let (e, events) =
        insert_event provider_of.format_time provider_of.event_faults event_security
          "telegram command rejected" fields provider_of.now w.database.events in
      (record w { database = record (w.database) { events = events } }, e)

  abbrev pub threshold_service : ThresholdService World
  threshold_service = record {
    list = λ w. in_database w (list_thresholds provider_of w.database);
    build_set_confirmation = λ user_id module_id key value w.
        in_database w (build_set_confirmation provider_of user_id module_id key value w.database);
    confirm = λ user_id id w. in_database w (confirm provider_of user_id id w.database);
  }

  abbrev pub telegram_service_of : Withdraw.Service → Telegram.Service World
  telegram_service_of withdraw = record {
    authorization = record {
      chat_id = runtime.config.telegram.chat_id;
      allowed_user_ids = runtime.config.telegram.allowed_user_ids;
    };
    reports = some (λ w. (w, ok (render_stats (snapshot w.monitor))));
    withdraw = some (λ w. (w, dry_run_full_exit withdraw));
    thresholds = some threshold_service;
    logs = some (λ include_info w. in_database w (recent provider_of include_info w.database));
    events = some record_event;
    sender = Sender.bot runtime.secrets.telegram_token services.send;
    max_response_chars = pos 0;
  }

  -- The steps after the database is open; each cleans up where it fails.
  abbrev pub with_caps : Held → ℤ → Result ℕ → Result ℕ → Held × Result Services
  with_caps held timeout (err e) max_tip = (cleanup runtime.config held, err e)
  with_caps held timeout (ok max_fee) (err e) = (cleanup runtime.config held, err e)
  with_caps held timeout (ok max_fee) (ok max_tip) =
      let withdraw = withdraw_service_of timeout max_fee max_tip in
      (held, ok (record { withdraw = withdraw; telegram = telegram_service_of withdraw }))

  abbrev pub with_timeout : Held → Result ℤ → Held × Result Services
  with_timeout held (err e) = (cleanup runtime.config held, err e)
  with_timeout held (ok timeout) =
      with_caps held timeout
        (parse_gwei "gas.max_fee_per_gas_gwei" (codes runtime.config.gas.max_fee_per_gas_gwei))
        (parse_gwei "gas.max_priority_fee_per_gas_gwei"
          (codes runtime.config.gas.max_priority_fee_per_gas_gwei))

  abbrev pub with_bot : Held → Option Error → Held × Result Services
  with_bot held (some e) =
      (cleanup runtime.config held, err (sanitize_runtime_error deps.error_text runtime.secrets e))
  with_bot held none =
      with_timeout held (services.parse_duration runtime.config.gas.replacement_timeout)

  abbrev pub with_database : Held → Option Error → Held × Result Services
  with_database held (some e) = (log_cleanup runtime.config held, err e)
  with_database held none =
      with_bot (record held { databases = suc held.databases })
        (services.new_telegram_bot runtime.secrets.telegram_token)

  -- `setupRuntimeLogger`: no file, or a directory for it and the open log.
  abbrev pub log_dir_error : Option Error
  log_dir_error =
      if str_eq runtime.config.logs.file_path ""
      then none
      else services.make_dir (services.dir_of runtime.config.logs.file_path)

  abbrev pub database_path : String
  database_path = services.join_path runtime.config.app.data_dir "withdraw-bot.sqlite"

  abbrev pub with_log : Held → Option Error → Held × Result Services
  with_log held (some e) = (held, err (Error.wrapped "create log dir" e))
  with_log held none =
      with_database (has_log runtime.config held) (services.open_storage database_path)

  abbrev pub with_data_dir : Held → Option Error → Held × Result Services
  with_data_dir held (some e) = (held, err (Error.wrapped "create data dir" e))
  with_data_dir held none = with_log held log_dir_error

  unfoldable pub build_monitor_services : Held → Held × Result Services
  unfolding parse_gwei sanitize_runtime_error dry_run_full_exit render_stats list_thresholds
      build_set_confirmation confirm recent insert_event
  build_monitor_services held = with_data_dir held (services.make_dir runtime.config.app.data_dir)
