-- ===== src/Tests/Monitoring.antt =====
-- internal/monitor, its modules and internal/app/alerts.go at concrete inputs.
use withdraw_bot.Prelude.{
  ℕ, ℤ, pos, String, false, none, some, List, [], ◌∷◌, ◌++◌, ◌≡◌, ◌↔◌, ◌⊎◌, refl, arith, ◌<◌, ◌≤ℤ◌,
  ◌<ℤ◌, ◌-ℤ◌, ◌*ℤ◌, div_ℤ, div_ℕ, to_int64, if◌then◌else◌, ◌||◌,
}
use withdraw_bot.Errors.{Error, Sentinel, ok, err}
use withdraw_bot.Core.{Severity, MonitorStatus, Finding, MonitorResult, FullExitSimulation}
use withdraw_bot.Monitor.{
  Module, Turn, MonitorState, Round, Event, LoopStatus, run_once, run_loop, fatal,
}
use withdraw_bot.Monitor.Turns.{observed, timed, put_all, usable, run_once-observed}
use withdraw_bot.Monitor.Failures.{is_broken, is_unstored}
use withdraw_bot.Monitor.Handling.{ForeignRound, run_once-handled, run_once-fatal}
use withdraw_bot.Monitor.Loop.{Ended, run_loop-Ended}
use withdraw_bot.Alerts.{Action, AlertService, handle_monitor_results}
use withdraw_bot.Alerts.Urgency.{results_call, perform, handle_monitor_results-perform}
use withdraw_bot.Modules.SharePrice.{
  SharePriceModule, validate_share_price, loss_from, loss_bps, rate_losses, report_price,
  monitor_share_price,
}
use withdraw_bot.Modules.Prices.{
  Fell, Graded, severities_of, IsWatching, monitor_share_price-Graded,
}
use withdraw_bot.Modules.Liquidity.{
  LiquidityModule, ExitSimulator, validate_liquidity, simulate_position, simulate_with,
  validate_position, expected_exit, rate_idle, rate_exit, report_liquidity, monitor_liquidity,
}
use withdraw_bot.Modules.Exits.{
  IsSound, IsIdle, IsSimulated, GradedExit, monitor_liquidity-GradedExit,
}

-- The price fell by 2% from the baseline: a warning.
abbrev price_module : SharePriceModule
price_module = record {
  baseline_share_price = some (pos 1000000);
  previous_share_price = some (pos 990000);
  warn_bps = pos 100;
  urgent_bps = pos 500;
  reader = some (ok (some (pos 980000)));
  now = pos 1000;
}

is_watching : IsWatching price_module 100 500
is_watching = record {
  baseline_positive = refl;
  warn_set = refl;
  warn_positive = omega arith;
  urgent_set = refl;
  in_order = omega arith;
  reader_set = refl;
}

price_result : monitor_share_price price_module ≡ ok (report_price price_module (pos 980000))
unfolding monitor_share_price validate_share_price
price_result = refl

monitor_share_price-Graded_example :
    (w : ℕ) × (u : ℕ) × (c : ℕ) × IsWatching price_module w u
    × (price_module.reader ≡ some (ok (some (pos c))))
    × (0 < c)
    × Graded
        (Fell price_module u c)
        (Fell price_module w c)
        (report_price price_module (pos 980000)).status
        (severities_of (report_price price_module (pos 980000)).findings)
monitor_share_price-Graded_example = monitor_share_price-Graded price_module price_result

price_warns : (report_price price_module (pos 980000)).status ≡ MonitorStatus.warn
unfolding report_price loss_from loss_bps rate_losses ◌-ℤ◌ ◌*ℤ◌ div_ℤ div_ℕ to_int64
price_warns = refl

-- A vault with enough idle assets, and an exit of which the simulation fails.
abbrev exit_simulator : ExitSimulator
exit_simulator = record {
  position = ok (record {
    vault = 17;
    owner = 21;
    receiver = 22;
    share_balance = some (pos 700);
    asset_symbol = "USDC";
    asset_decimals = 6;
    observed_at = pos 1000;
  });
  simulate_full_exit = λ request. err (Error.message "reverted");
}

abbrev liquidity_module : LiquidityModule
liquidity_module = record {
  idle_asset_reader = some (λ vault. ok (some (pos 5000)));
  exit_simulator = some exit_simulator;
  owner = 21;
  receiver = 22;
  vault = 17;
  idle_warn = some (pos 900);
  idle_urgent = some (pos 300);
  now = pos 1000;
}

liquidity_result :
    monitor_liquidity liquidity_module
    ≡ ok (report_liquidity liquidity_module (pos 5000) false (pos 0))
unfolding monitor_liquidity validate_liquidity simulate_position simulate_with validate_position
    expected_exit
liquidity_result = refl

monitor_liquidity-GradedExit_example :
    IsSound liquidity_module
    × (idle : ℤ) × (simulation : FullExitSimulation) × IsIdle liquidity_module.idle_asset_reader 17
        idle
    × IsSimulated liquidity_module simulation
    × GradedExit liquidity_module idle simulation.success
        (report_liquidity liquidity_module (pos 5000) false (pos 0)).status
        (severities_of (report_liquidity liquidity_module (pos 5000) false (pos 0)).findings)
monitor_liquidity-GradedExit_example =
    monitor_liquidity-GradedExit liquidity_module liquidity_result

exit_is_urgent :
    (report_liquidity liquidity_module (pos 5000) false (pos 0)).status ≡ MonitorStatus.urgent
unfolding report_liquidity rate_exit rate_idle
exit_is_urgent = refl

-- A round of two modules: one reports an urgent finding, the other fails.
abbrev urgent_finding : Finding
urgent_finding = record {
  key = "share_price_loss";
  severity = Severity.urgent;
  message = "share price loss crossed urgent threshold";
  evidence = [];
}

abbrev urgent_result : MonitorResult
urgent_result = record {
  module_id = "share_price_loss";
  status = MonitorStatus.urgent;
  observed_at = pos 1000;
  metrics = [];
  findings = urgent_finding ∷ [];
}

abbrev turn_of : Module → Turn
turn_of m = record {
  monitor_module = some m;
  failed_at = pos 1001;
  stored_at = pos 1002;
  insert_monitor_result = λ result time. none;
}

abbrev turns : List Turn
turns =
    turn_of (record { id = "share_price_loss"; validate_config = none; monitor = ok urgent_result })
    ∷ turn_of (record {
      id = "withdraw_liquidity";
      validate_config = none;
      monitor = err (Error.message "down");
    })
    ∷ []

abbrev round : Round
round = record { turns = turns; result_handler = some (λ results. none) }

abbrev error_text : Error → String
error_text e = "failure"

abbrev start : MonitorState
start = record { latest = []; inserted = []; handled = [] }

run_once-observed_example :
    let p = run_once error_text round start in
    (p.results ≡ observed error_text turns)
    × (p.state.inserted ≡ timed error_text turns)
    × (p.state.latest ≡ put_all (observed error_text turns) [])
run_once-observed_example = run_once-observed error_text round start

foreign : (s : Sentinel) → ForeignRound s round
foreign s = (
  (((refl, refl), λ result time. refl), (((refl, refl), λ result time. refl), tt)),
  λ results. refl,
)

run_once-handled_example :
    (run_once error_text round start).state.handled
    ≡ []
      ++ (if is_broken turns || is_unstored error_text (usable turns)
          then []
          else observed error_text turns ∷ [])
run_once-handled_example =
    run_once-handled error_text round start (λ results. none) refl
      (foreign Sentinel.invalid_monitor_module) (foreign Sentinel.monitor_storage)

run_once-fatal_example :
    (fatal (run_once error_text round start).error ≡ none)
    ↔ ((is_broken turns ≡ false) × (is_unstored error_text (usable turns) ≡ false))
run_once-fatal_example =
    run_once-fatal error_text round start (foreign Sentinel.invalid_monitor_module)
      (foreign Sentinel.monitor_storage)

run_loop-Ended_example :
    let events = Event.tick round ∷ Event.done (Error.message "canceled") ∷ [] in
    let outcome = run_loop error_text (pos 60) round events start in
    ((pos 60 ≤ℤ pos 0)
      × (outcome
          ≡ (start, LoopStatus.returned (Error.message "monitor interval must be positive"))))
    ⊎ ((pos 0 <ℤ pos 60) × Ended error_text start (Event.tick round ∷ events) outcome)
run_loop-Ended_example =
    run_loop-Ended error_text (pos 60) round
      (Event.tick round ∷ Event.done (Error.message "canceled") ∷ []) start

-- Alerts arrive, and the exit fails.
abbrev alert_service : AlertService
alert_service = record {
  answer = λ past action. elim action [
    | Action.send_alert text ↦ none
    | Action.execute_full_exit trigger ↦ some (Error.message "simulation failed")
  ];
}

handle_monitor_results-perform_example :
    handle_monitor_results alert_service (urgent_result ∷ urgent_result ∷ []) []
    ≡ perform alert_service (results_call (urgent_result ∷ urgent_result ∷ [])) []
handle_monitor_results-perform_example =
    handle_monitor_results-perform alert_service (urgent_result ∷ urgent_result ∷ []) []
