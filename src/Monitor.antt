-- ===== src/Monitor.antt =====
-- internal/monitor/service.go: the service that runs the monitor modules.
pub mod Turns
pub mod Latest
pub mod Foreign
pub mod Failures
pub mod Owned
pub mod Handling
pub mod Loop
use withdraw_bot.Prelude.{
  ℤ, pos, String, Bool, true, false, ◌||◌, ◌&&◌, not, Option, none, some, List, [], ◌∷◌, ◌++◌,
  str_eq, ◌<>◌, leb_ℤ, if◌then◌else◌,
}
use withdraw_bot.Errors.{
  Error, Sentinel, Result, ok, err, ◌>>=◌, ◌>>◌, fail_if, ◌orelse◌, join, is_error, holds_error,
}
use withdraw_bot.Core.{
  Time, MonitorModuleId, Severity, MonitorStatus, Finding, MonitorResult, finding_stale_data,
}

-- `core.MonitorModule`, by its answers in one run.
pub record Module : Type 0 where
  pub id : MonitorModuleId
  pub validate_config : Option Error
  pub monitor : Result MonitorResult

-- The turn of one module in a run: the module (`none` is a nil one), what the clock shows when a
-- failure is stamped and when the result is stored, and what storage answers.
pub record Turn : Type 0 where
  pub monitor_module : Option Module
  pub failed_at : Time
  pub stored_at : Time
  pub insert_monitor_result : MonitorResult → Time → Option Error

-- What runs change: `Latest`, the results that were handed to storage, and the lists of results
-- that were handed to the result handler.
pub record MonitorState : Type 0 where
  pub latest : List (MonitorModuleId × MonitorResult)
  pub inserted : List (MonitorResult × Time)
  pub handled : List (List MonitorResult)

-- One run: the turns of its modules in order, and the answer of the result handler, if there is one.
pub record Round : Type 0 where
  pub turns : List Turn
  pub result_handler : Option (List MonitorResult → Option Error)

-- `service.Latest[id] = result`, on an association list.
abbrev pub put :
    MonitorModuleId
    → MonitorResult
    → List (MonitorModuleId × MonitorResult)
    → List (MonitorModuleId × MonitorResult)
put id result [] = (id, result) ∷ []
put id result ((key, value) ∷ rest) =
    let below = put id result rest in
    if str_eq id key then (id, result) ∷ rest else (key, value) ∷ below

-- `service.Snapshot()[id]`
abbrev pub lookup : MonitorModuleId → List (MonitorModuleId × MonitorResult) → Option MonitorResult
lookup id [] = none
lookup id ((key, value) ∷ rest) =
    let below = lookup id rest in if str_eq id key then some value else below

-- `Snapshot` copies the map.
unfoldable pub snapshot : MonitorState → List (MonitorModuleId × MonitorResult)
snapshot state = state.latest

-- `errors.Join(before, s, e)`, if there is an error `e`.
abbrev pub add_error : Option Error → Sentinel → Option Error → Option Error
add_error before s none = before
add_error before s (some e) = some (join (some (join before (Error.sentinel s))) e)

abbrev pub wrap : String → Option Error → Option Error
wrap text none = none
wrap text (some e) = some (Error.wrapped text e)

abbrev pub error_of : Result MonitorResult → Option Error
error_of (ok _) = none
error_of (err e) = some e

-- A module that may run, or what is wrong with it.
unfoldable pub checked : Option Module → Result Module
checked none = err (Error.message "monitor module is nil")
checked (some m) =
    (fail_if (str_eq m.id "") (Error.message "monitor module id is empty")
      orelse wrap ("validate monitor module " <> m.id) m.validate_config)
    >> ok m

-- `shouldHandleMonitorResults`
abbrev pub should_handle_monitor_results : Option Error → Bool
should_handle_monitor_results e =
    not (holds_error e Sentinel.invalid_monitor_module)
    && not (holds_error e Sentinel.monitor_storage)

-- `isRecoverableMonitorError`
abbrev pub is_recoverable_monitor_error : Error → Bool
is_recoverable_monitor_error e =
    if is_error e Sentinel.invalid_monitor_module || is_error e Sentinel.monitor_storage
    then false
    else (is_error e Sentinel.monitor_module_failure || is_error e Sentinel.monitor_result_handler)

-- A run on its way: the results so far, and the error so far.
pub record Progress : Type 0 where
  pub state : MonitorState
  pub results : List MonitorResult
  pub error : Option Error

abbrev pub refuse : Error → Progress → Progress
refuse e progress = record {
  state = progress.state;
  results = progress.results;
  error = add_error progress.error Sentinel.invalid_monitor_module (some e);
}

abbrev add_handled : MonitorState → List MonitorResult → MonitorState
add_handled state results = record {
  latest = state.latest;
  inserted = state.inserted;
  handled = state.handled ++ (results ∷ []);
}

-- The call of the result handler, where the run is one for it.
abbrev pub hand_over_if : Bool → (List MonitorResult → Option Error) → Progress → Progress
hand_over_if true handle progress = record {
  state = add_handled progress.state progress.results;
  results = progress.results;
  error = add_error progress.error Sentinel.monitor_result_handler (handle progress.results);
}
hand_over_if false handle progress = progress

-- The result handler gets the results of a run in which every module ran and was stored.
unfoldable pub hand_over : Option (List MonitorResult → Option Error) → Progress → Progress
hand_over none progress = progress
hand_over (some handle) progress =
    hand_over_if (should_handle_monitor_results progress.error) handle progress

abbrev pub started : MonitorState → Progress
started state = record { state = state; results = []; error = none }

abbrev pub finish : Option (List MonitorResult → Option Error) → Progress × Bool → Progress
finish handler (progress, true) = hand_over handler progress
finish handler (progress, false) = progress

-- `error_text` is the text of an error, `err.Error()`.
module _ (error_text : Error → String) where
  -- The result of a module that fails.
  abbrev failed_result : Module → Time → Error → MonitorResult
  failed_result m now e = record {
    module_id = m.id;
    status = MonitorStatus.unknown;
    observed_at = now;
    metrics = [];
    findings =
        record {
          key = finding_stale_data;
          severity = Severity.warn;
          message = "module " <> m.id <> " failed: " <> error_text e;
          evidence = ("module_id", m.id) ∷ [];
        }
        ∷ [];
  }

  abbrev result_or_failed : Module → Time → Result MonitorResult → MonitorResult
  result_or_failed m now (ok result) = result
  result_or_failed m now (err e) = failed_result m now e

  -- The result of a module's turn.
  unfoldable pub observe : Turn → Module → MonitorResult
  observe turn m =
      let result = result_or_failed m turn.failed_at m.monitor in
      record {
        module_id = m.id;
        status = result.status;
        observed_at = result.observed_at;
        metrics = result.metrics;
        findings = result.findings;
      }

  unfoldable pub take_turn : Turn → Module → Progress → Progress
  take_turn turn m progress =
      let result = observe turn m in
      record {
        state = record {
          latest = put m.id result progress.state.latest;
          inserted = progress.state.inserted ++ ((result, turn.stored_at) ∷ []);
          handled = progress.state.handled;
        };
        results = progress.results ++ (result ∷ []);
        error =
            add_error
              (add_error progress.error Sentinel.monitor_module_failure
                (wrap ("run monitor module " <> m.id) (error_of m.monitor)))
              Sentinel.monitor_storage
              (wrap ("store monitor result for " <> m.id)
                (turn.insert_monitor_result result turn.stored_at));
      }

  -- The loop over the modules; `false` is the early return on a module that may not run.
  unfoldable pub take_turns : List Turn → Progress → Progress × Bool
  unfolding checked take_turn
  take_turns [] progress = (progress, true)
  take_turns (turn ∷ turns) progress = elim (checked turn.monitor_module) [
    | ok m ↦ take_turns turns (take_turn turn m progress)
    | err e ↦ (refuse e progress, false)
  ]

  -- `RunOnce`
  unfoldable pub run_once : Round → MonitorState → Progress
  unfolding take_turns hand_over
  run_once round state = finish round.result_handler (take_turns round.turns (started state))

-- What `RunLoop` waits for: the tick that starts a run, or the end of its context with its error.
pub data Event : Type 0 where
  tick : Round → Event
  done : Error → Event

pub data LoopStatus : Type 0 where
  running : LoopStatus
  returned : Error → LoopStatus

-- The error that ends the loop, if there is one.
abbrev pub fatal : Option Error → Option Error
fatal none = none
fatal (some e) = if is_recoverable_monitor_error e then none else some e

module _ (error_text : Error → String) where
  -- The loop on the events of its context and of its ticker.
  unfoldable pub serve : List Event → MonitorState → MonitorState × LoopStatus
  unfolding run_once
  serve [] state = (state, LoopStatus.running)
  serve (Event.done e ∷ events) state = (state, LoopStatus.returned e)
  serve (Event.tick round ∷ events) state =
      let progress = run_once error_text round state in
      elim (fatal progress.error) [
        | some e ↦ (progress.state, LoopStatus.returned e)
        | none ↦ serve events progress.state
      ]

  -- `RunLoop`: the first run does not wait for the ticker.
  unfoldable pub run_loop : ℤ → Round → List Event → MonitorState → MonitorState × LoopStatus
  unfolding serve
  run_loop interval first events state =
      if leb_ℤ interval (pos 0)
      then (state, LoopStatus.returned (Error.message "monitor interval must be positive"))
      else serve (Event.tick first ∷ events) state
