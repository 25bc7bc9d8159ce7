-- ===== src/App/Run.antt =====
-- internal/app/app.go and cmd/withdraw-bot/main.go: a run of the program in one of its modes.
use withdraw_bot.Prelude.{
  ℕ, ℤ, String, Bool, false, not, Option, none, some, List, [], ◌∷◌, str_eq, eqb_ℤ, decimal, ◌==◌,
  ◌<>◌, if◌then◌else◌,
}
use withdraw_bot.Errors.{Error, Result, ok, err, fail_if, ◌orelse◌}
use withdraw_bot.Core.{Address, MonitorModuleId}
use withdraw_bot.Ethereum.{chain_id}
use withdraw_bot.Config.Settings.{Config}
use withdraw_bot.App.Mode.{Mode, Fragment, parse_mode, run_checks, collect_bootstrap_fragments}
use withdraw_bot.App.Runtime.{
  Held, Dependencies, Runtime, close_client, build_runtime, sanitize_runtime_error,
}
use withdraw_bot.App.Services.{ServiceDependencies, Services, cleanup, build_monitor_services}

-- The first value in the channel of `runMonitor`: how the loop that ends first ends. The other one
-- is cancelled, and not waited for.
pub record LoopDependencies : Type 0 where
  pub services : ServiceDependencies
  pub first_end : Services → ℤ → Option Error
  pub write_yaml : List (MonitorModuleId × Fragment) → Option Error

abbrev pub chain_text : Option ℤ → String
chain_text none = "<nil>"
chain_text (some n) = decimal n

abbrev pub same_chain : ℤ → Option ℤ → Bool
same_chain expected none = false
same_chain expected (some n) = eqb_ℤ n expected

abbrev pub check_chain : ℤ → Result (Option ℤ) → Option Error
check_chain expected (err e) = some e
check_chain expected (ok answer) = fail_if (not (same_chain expected answer)) (
    Error.message
      ("chain ID mismatch: config=" <> decimal expected <> " rpc=" <> chain_text answer))

abbrev pub check_signer : Result Address → Option Error
check_signer (ok _) = none
check_signer (err e) = some e

abbrev pub check_receiver : (String → Address) → String → Address → Option Error
check_receiver hex_to_address configured receiver =
    fail_if (receiver == 0) (Error.message "receiver address is required")
    orelse fail_if (not (hex_to_address configured == receiver))
        (Error.message "receiver address mismatch")

module _ (deps : Dependencies) (loops : LoopDependencies) where
  -- The runtime that `buildRuntime` returns has a client and a signer.
  unfoldable pub run_config_check : Runtime → Option Error
  unfolding run_checks
  run_config_check runtime = run_checks 1 (
      check_chain runtime.config.ethereum.chain_id (chain_id runtime.client)
      ∷ check_signer runtime.signer.address
      ∷ check_receiver deps.hex_to_address runtime.config.ethereum.receiver_address runtime.receiver
      ∷ [])

  unfoldable pub run_bootstrap : Runtime → Option Error
  unfolding collect_bootstrap_fragments sanitize_runtime_error
  run_bootstrap runtime = elim (collect_bootstrap_fragments runtime.modules) [
    | err e ↦ some (sanitize_runtime_error deps.error_text runtime.secrets e)
    | ok fragments ↦ loops.write_yaml fragments
  ]

  -- After the services are built, whose cleanup runs at the end.
  abbrev pub with_interval : Config → Held → Services → Result ℤ → Held × Option Error
  with_interval cfg held services (err e) = (cleanup cfg held, some e)
  with_interval cfg held services (ok interval) =
      (cleanup cfg held, loops.first_end services interval)

  abbrev pub with_services : Config → Held × Result Services → Held × Option Error
  with_services cfg (held, err e) = (held, some e)
  with_services cfg (held, ok services) =
      with_interval cfg held services (loops.services.parse_duration cfg.app.monitor_interval)

  unfoldable pub run_monitor : Runtime → Held → Held × Option Error
  unfolding build_monitor_services
  run_monitor runtime held =
      with_services runtime.config (build_monitor_services deps loops.services runtime held)

  -- The error of a mode, of which the secrets are taken out, and the client closed at the end.
  abbrev pub mode_error : Runtime → Option Error → Option Error
  mode_error runtime none = none
  mode_error runtime (some e) = some (sanitize_runtime_error deps.error_text runtime.secrets e)

  abbrev pub finished : Runtime → Held × Option Error → Held × Option Error
  finished runtime (held, e) = (close_client held, mode_error runtime e)

  abbrev pub run_mode : Mode → Runtime → Held → Held × Option Error
  run_mode Mode.monitor runtime held = finished runtime (run_monitor runtime held)
  run_mode Mode.bootstrap runtime held = finished runtime (held, run_bootstrap runtime)
  run_mode Mode.config_check runtime held = finished runtime (held, run_config_check runtime)
  run_mode (Mode.other mode) runtime held =
      (close_client held, some (Error.message ("unsupported mode \"" <> mode <> "\"")))

  abbrev pub with_runtime : Mode → Held × Result Runtime → Held × Option Error
  with_runtime mode (held, err e) = (held, some e)
  with_runtime mode (held, ok runtime) = run_mode mode runtime held

  -- `Run`
  unfoldable pub run : Mode → String → Held → Held × Option Error
  unfolding build_runtime run_monitor run_bootstrap run_config_check
  run mode config_path held =
      if str_eq config_path ""
      then (held, some (Error.message "config path is required"))
      else with_runtime mode (build_runtime deps config_path held)

  abbrev pub exit_code : Option Error → ℕ
  exit_code none = 0
  exit_code (some _) = 1

  abbrev pub after_run : Held × Option Error → Held × ℕ
  after_run (held, e) = (held, exit_code e)

  -- `parse_flags` is the flag set of Go: the path of the configuration, unless it refuses.
  abbrev pub main_mode : (List String → Option String) → Option Mode → List String → Held → Held × ℕ
  main_mode parse_flags none args held = (held, 2)
  main_mode parse_flags (some mode) args held = elim (parse_flags args) [
    | none ↦ (held, 2)
    | some config_path ↦ after_run (run mode config_path held)
  ]

  -- `run` of main.go: the exit code of the process.
  unfoldable pub main : (List String → Option String) → List String → Held → Held × ℕ
  unfolding parse_mode run
  main parse_flags [] held = (held, 2)
  main parse_flags (mode ∷ args) held = main_mode parse_flags (parse_mode mode) args held
