-- ===== src/App/Released.antt =====
-- internal/app: a run gives back what it opened.
use withdraw_bot.Prelude.{
  ℕ, suc, ℤ, pos, String, Option, none, some, str_eq, codes, if◌then◌else◌, ◌≡◌, refl, ap, ◌∙◌,
  arith, Bool-cases, inl, inr,
}
use withdraw_bot.Errors.{Error, Result, ok, err}
use withdraw_bot.Config.{parse_gwei}
use withdraw_bot.Config.Settings.{Config}
use withdraw_bot.App.Mode.{Mode}
use withdraw_bot.App.Runtime.{Held, Dependencies, Runtime, open_client, close_client, build_runtime}
use withdraw_bot.App.Opening.{Leaves, IsSound, close_client-open_client, build_runtime-Leaves}
use withdraw_bot.App.Services.{
  Services, has_log, log_cleanup, cleanup, with_caps, with_timeout, with_bot, with_database,
  with_log, with_data_dir, database_path, log_dir_error, build_monitor_services,
}
use withdraw_bot.App.Run.{
  LoopDependencies, with_interval, with_services, run_monitor, run_mode, with_runtime, run,
}

-- What is held while the services run.
abbrev pub serving : Config → Held → Held
serving cfg held =
    let logged = has_log cfg held in record logged { databases = suc logged.databases }

log_cleanup-has_log : (cfg : Config) (held : Held) → log_cleanup cfg (has_log cfg held) ≡ held
log_cleanup-has_log cfg held = ground arith

cleanup-serving : (cfg : Config) (held : Held) → cleanup cfg (serving cfg held) ≡ held
cleanup-serving cfg held = ground arith

-- The amounts of the two fee caps in a configuration.
abbrev pub max_fee_of : Config → Result ℕ
max_fee_of cfg = parse_gwei "gas.max_fee_per_gas_gwei" (codes cfg.gas.max_fee_per_gas_gwei)

abbrev pub max_tip_of : Config → Result ℕ
max_tip_of cfg =
    parse_gwei "gas.max_priority_fee_per_gas_gwei" (codes cfg.gas.max_priority_fee_per_gas_gwei)

-- The services have the fee caps of the configuration.
abbrev pub IsBudgeted : Runtime → Services → Type 0
IsBudgeted runtime services =
    (max_fee : ℕ) × (max_tip : ℕ) × (max_fee_of runtime.config ≡ ok max_fee)
    × (max_tip_of runtime.config ≡ ok max_tip)
    × (services.withdraw.gas_policy.max_fee_cap ≡ some (pos max_fee))
    × (services.withdraw.gas_policy.max_tip_cap ≡ some (pos max_tip))

module _ (deps : Dependencies) (loops : LoopDependencies) (runtime : Runtime) (held : Held) where
  with_caps-Leaves :
      (timeout : ℤ) (max_fee max_tip : Result ℕ)
      → max_fee_of runtime.config ≡ max_fee
      → max_tip_of runtime.config ≡ max_tip
      → Leaves (IsBudgeted runtime) (serving runtime.config held) held (
          with_caps deps loops.services runtime
            (serving runtime.config held)
            timeout
            max_fee
            max_tip)
  with_caps-Leaves timeout (ok max_fee) (ok max_tip) fee tip =
      (refl, (max_fee, max_tip, fee, tip, refl, refl))
  with_caps-Leaves timeout (ok max_fee) (err e) fee tip = cleanup-serving runtime.config held
  with_caps-Leaves timeout (err e) max_tip fee tip = cleanup-serving runtime.config held

  with_timeout-Leaves :
      (timeout : Result ℤ)
      → Leaves
          (IsBudgeted runtime)
          (serving runtime.config held)
          held
          (with_timeout deps loops.services runtime (serving runtime.config held) timeout)
  with_timeout-Leaves (ok timeout) =
      with_caps-Leaves timeout (max_fee_of runtime.config) (max_tip_of runtime.config) refl refl
  with_timeout-Leaves (err e) = cleanup-serving runtime.config held

  with_bot-Leaves :
      (e : Option Error)
      → Leaves
          (IsBudgeted runtime)
          (serving runtime.config held)
          held
          (with_bot deps loops.services runtime (serving runtime.config held) e)
  with_bot-Leaves none =
      with_timeout-Leaves (loops.services.parse_duration runtime.config.gas.replacement_timeout)
  with_bot-Leaves (some e) = cleanup-serving runtime.config held

  with_database-Leaves :
      (e : Option Error)
      → Leaves
          (IsBudgeted runtime)
          (serving runtime.config held)
          held
          (with_database deps loops.services runtime (has_log runtime.config held) e)
  with_database-Leaves none =
      with_bot-Leaves (loops.services.new_telegram_bot runtime.secrets.telegram_token)
  with_database-Leaves (some e) = log_cleanup-has_log runtime.config held

  with_log-Leaves :
      (e : Option Error)
      → Leaves
          (IsBudgeted runtime)
          (serving runtime.config held)
          held
          (with_log deps loops.services runtime held e)
  with_log-Leaves none =
      with_database-Leaves (loops.services.open_storage (database_path deps loops.services runtime))
  with_log-Leaves (some e) = refl

  with_data_dir-Leaves :
      (e : Option Error)
      → Leaves
          (IsBudgeted runtime)
          (serving runtime.config held)
          held
          (with_data_dir deps loops.services runtime held e)
  with_data_dir-Leaves none = with_log-Leaves (log_dir_error deps loops.services runtime)
  with_data_dir-Leaves (some e) = refl

  with_interval-held :
      (services : Services) (after : Held) (interval : Result ℤ)
      → after ≡ serving runtime.config held
      → (with_interval deps loops runtime.config after services interval).0 ≡ held
  with_interval-held services after (ok interval) h =
      ap (cleanup runtime.config) h ∙ cleanup-serving runtime.config held
  with_interval-held services after (err e) h =
      ap (cleanup runtime.config) h ∙ cleanup-serving runtime.config held

  with_services-held :
      (built : Held × Result Services)
      → Leaves (IsBudgeted runtime) (serving runtime.config held) held built
      → (with_services deps loops runtime.config built).0 ≡ held
  with_services-held (after, ok services) h =
      with_interval-held services after
        (loops.services.parse_duration runtime.config.app.monitor_interval) h.0
  with_services-held (after, err e) h = h

  pub build_monitor_services-Leaves :
      Leaves
        (IsBudgeted runtime)
        (serving runtime.config held)
        held
        (build_monitor_services deps loops.services runtime held)
  unfolding build_monitor_services
  build_monitor_services-Leaves =
      with_data_dir-Leaves (loops.services.make_dir runtime.config.app.data_dir)

  run_monitor-held : (run_monitor deps loops runtime held).0 ≡ held
  unfolding run_monitor build_monitor_services
  run_monitor-held =
      with_services-held (build_monitor_services deps loops.services runtime held)
        build_monitor_services-Leaves

run_mode-held :
    (deps : Dependencies) (loops : LoopDependencies) (mode : Mode) (runtime : Runtime)
    (held after : Held)
    → after ≡ open_client held
    → (run_mode deps loops mode runtime after).0 ≡ held
run_mode-held deps loops Mode.monitor runtime held after h =
    ap close_client (run_monitor-held deps loops runtime after ∙ h) ∙ close_client-open_client held
run_mode-held deps loops Mode.bootstrap runtime held after h =
    ap close_client h ∙ close_client-open_client held
run_mode-held deps loops Mode.config_check runtime held after h =
    ap close_client h ∙ close_client-open_client held
run_mode-held deps loops (Mode.other text) runtime held after h =
    ap close_client h ∙ close_client-open_client held

with_runtime-held :
    (deps : Dependencies) (loops : LoopDependencies) (mode : Mode) (held : Held)
    (built : Held × Result Runtime)
    → Leaves (IsSound deps) (open_client held) held built
    → (with_runtime deps loops mode built).0 ≡ held
with_runtime-held deps loops mode held (after, ok runtime) h =
    run_mode-held deps loops mode runtime held after h.0
with_runtime-held deps loops mode held (after, err e) h = h

-- Every run, in whatever mode and wherever it fails, ends with the clients, the logs and the
-- databases closed that it opened.
pub run_released :
    (deps : Dependencies) (loops : LoopDependencies) (mode : Mode) (config_path : String)
    (held : Held)
    → (run deps loops mode config_path held).0 ≡ held
unfolding run
run_released deps loops mode config_path held = elim (Bool-cases (str_eq config_path "")) [
  | inl empty ↦
      ap
        (λ b.
          (if b
            then (held, some (Error.message "config path is required"))
            else with_runtime deps loops mode (build_runtime deps config_path held)).0)
        empty
  | inr set ↦
      ap
        (λ b.
          (if b
            then (held, some (Error.message "config path is required"))
            else with_runtime deps loops mode (build_runtime deps config_path held)).0)
        set
      ∙ with_runtime-held deps loops mode held (build_runtime deps config_path held)
          (build_runtime-Leaves deps held config_path)
]
