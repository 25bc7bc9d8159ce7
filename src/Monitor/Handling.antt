-- ===== src/Monitor/Handling.antt =====
-- internal/monitor/service.go: when the result handler is called and when the loop goes on.
use withdraw_bot.Prelude.{
  String, Bool, true, false, ◌||◌, ◌&&◌, not, Option, none, some, List, [], ◌∷◌, ◌++◌, append-nil,
  ◌≡◌, refl, sym, ap, ap₂, ◌∙◌, ◌↔◌, if◌then◌else◌, All,
}
use withdraw_bot.Errors.{Error, Sentinel, holds_error, is_none}
use withdraw_bot.Core.{MonitorResult}
use withdraw_bot.Monitor.{
  Turn, MonitorState, Round, Progress, finish, take_turns, hand_over_if, hand_over, started,
  run_once, should_handle_monitor_results, fatal,
}
use withdraw_bot.Monitor.Turns.{usable, observed, take_turns-Reports}
use withdraw_bot.Monitor.Foreign.{Foreign, holds-add_error, is_same, or_false}
use withdraw_bot.Monitor.Failures.{
  is_broken, is_failing, is_unstored, all_add-failure, all_add-storage, all_add-neither,
  take_turns-Adds,
}
use withdraw_bot.Monitor.Owned.{Owned-fatal, fatal-none, take_turns-Owned, finish-Owned, nil}

abbrev ForeignHandler : Sentinel → Option (List MonitorResult → Option Error) → Type 0
ForeignHandler s none = Unit
ForeignHandler s (some handle) =
    (results : List MonitorResult) → holds_error (handle results) s ≡ false

-- No error that the round's modules, storage or handler answer wraps the service's own
-- sentinel `s`, which is not exported.
abbrev pub ForeignRound : Sentinel → Round → Type 0
ForeignRound s round = All (Foreign s) round.turns × ForeignHandler s round.result_handler

and_true : (b : Bool) → (b && true) ≡ b
and_true true = refl
and_true false = refl

and_false : (b : Bool) → (b && false) ≡ false
and_false true = refl
and_false false = refl

module _ (error_text : Error → String) where
  -- The error of the loop, before the handler.
  loop-invalid :
      (turns : List Turn) (state : MonitorState)
      → All (Foreign Sentinel.invalid_monitor_module) turns
      → holds_error
          (take_turns error_text turns (started state)).0.error
          Sentinel.invalid_monitor_module
        ≡ is_broken turns
  loop-invalid turns state f =
      let (h, _) =
        take_turns-Adds error_text turns (started state) Sentinel.invalid_monitor_module f in
      h
      ∙ ap (λ x. x || (is_broken turns && true)) (all_add-neither error_text (usable turns))
      ∙ and_true (is_broken turns)

  loop-storage :
      (turns : List Turn) (state : MonitorState)
      → All (Foreign Sentinel.monitor_storage) turns
      → holds_error (take_turns error_text turns (started state)).0.error Sentinel.monitor_storage
        ≡ is_unstored error_text (usable turns)
  loop-storage turns state f =
      let (h, _) = take_turns-Adds error_text turns (started state) Sentinel.monitor_storage f in
      h
      ∙ ap₂ (λ x y. x || y) (all_add-storage error_text (usable turns))
          (and_false (is_broken turns))
      ∙ or_false (is_unstored error_text (usable turns))

  loop-failure :
      (turns : List Turn) (state : MonitorState)
      → All (Foreign Sentinel.monitor_module_failure) turns
      → holds_error
          (take_turns error_text turns (started state)).0.error
          Sentinel.monitor_module_failure
        ≡ is_failing (usable turns)
  loop-failure turns state f =
      let (h, _) =
        take_turns-Adds error_text turns (started state) Sentinel.monitor_module_failure f in
      h
      ∙ ap₂ (λ x y. x || y) (all_add-failure error_text (usable turns))
          (and_false (is_broken turns))
      ∙ or_false (is_failing (usable turns))

hand_over_if-holds :
    (b : Bool) (handle : List MonitorResult → Option Error) (p : Progress) (s : Sentinel)
    → holds_error (handle p.results) s ≡ false
    → is_same Sentinel.monitor_result_handler s ≡ false
    → holds_error (hand_over_if b handle p).error s ≡ holds_error p.error s
hand_over_if-holds false handle p s f d = refl
hand_over_if-holds true handle p s f d =
    holds-add_error p.error Sentinel.monitor_result_handler (handle p.results) s f
    ∙ ap (λ x. holds_error p.error s || (not (is_none (handle p.results)) && x)) d
    ∙ ap (λ x. holds_error p.error s || x) (and_false (not (is_none (handle p.results))))
    ∙ or_false (holds_error p.error s)

-- The handler adds none of the other sentinels.
finish-holds :
    (o : Option (List MonitorResult → Option Error)) (q : Progress × Bool) (s : Sentinel)
    → ForeignHandler s o
    → is_same Sentinel.monitor_result_handler s ≡ false
    → holds_error (finish o q).error s ≡ holds_error q.0.error s
unfolding hand_over
finish-holds o (p, false) s f d = refl
finish-holds none (p, true) s f d = refl
finish-holds (some handle) (p, true) s f d =
    hand_over_if-holds (should_handle_monitor_results p.error) handle p s (f p.results) d

-- What is handed to the handler in the course of a run.
abbrev handed_if : Bool → List MonitorResult → List (List MonitorResult)
handed_if true results = results ∷ []
handed_if false results = []

handed-either :
    (a b : Bool) (results : List MonitorResult)
    → handed_if (not a && not b) results ≡ (if a || b then [] else results ∷ [])
handed-either true b results = refl
handed-either false true results = refl
handed-either false false results = refl

hand_over_if-handled :
    (b : Bool) (handle : List MonitorResult → Option Error) (p : Progress)
    → (hand_over_if b handle p).state.handled ≡ p.state.handled ++ handed_if b p.results
hand_over_if-handled true handle p = refl
hand_over_if-handled false handle p = sym (append-nil p.state.handled)

-- Nothing is handed over after the early return, as the error holds its sentinel.
finish-handled :
    (handle : List MonitorResult → Option Error) (q : Progress × Bool) (broken : Bool)
    → q.1 ≡ not broken
    → holds_error q.0.error Sentinel.invalid_monitor_module ≡ broken
    → (finish (some handle) q).state.handled
      ≡ q.0.state.handled ++ handed_if (should_handle_monitor_results q.0.error) q.0.results
unfolding hand_over
finish-handled handle (p, true) broken h k =
    hand_over_if-handled (should_handle_monitor_results p.error) handle p
finish-handled handle (p, false) true h k =
    sym (append-nil p.state.handled)
    ∙ ap
        (λ x.
          p.state.handled
          ++ handed_if (not x && not (holds_error p.error Sentinel.monitor_storage)) p.results)
        (sym k)
finish-handled handle (p, false) false h k = cc

module _ (error_text : Error → String) where
  -- Where no error from outside wraps the service's own sentinels, the result handler is called once
  -- in a run, with all of its results, if every module may run and every result is stored; otherwise
  -- it is not called.
  pub run_once-handled :
      (round : Round) (state : MonitorState) (handle : List MonitorResult → Option Error)
      → round.result_handler ≡ some handle
      → ForeignRound Sentinel.invalid_monitor_module round
      → ForeignRound Sentinel.monitor_storage round
      → (run_once error_text round state).state.handled
        ≡ state.handled
          ++ (if is_broken round.turns || is_unstored error_text (usable round.turns)
              then []
              else observed error_text round.turns ∷ [])
  unfolding run_once
  run_once-handled round state handle e f g =
      let q = take_turns error_text round.turns (started state) in
      let results = observed error_text round.turns in
      let (reported, _, _, kept) = take_turns-Reports error_text round.turns (started state) in
      let complete =
        (take_turns-Adds error_text round.turns (started state) Sentinel.invalid_monitor_module
          f.0).1 in
      let invalid = loop-invalid error_text round.turns state f.0 in
      let storage = loop-storage error_text round.turns state g.0 in
      ap (λ o. (finish o q).state.handled) e
      ∙ finish-handled handle q (is_broken round.turns) complete invalid
      ∙ ap₂ (λ h r. h ++ handed_if (should_handle_monitor_results q.0.error) r) kept reported
      ∙ ap₂ (λ x y. state.handled ++ handed_if (not x && not y) results) invalid storage
      ∙ ap (λ r. state.handled ++ r)
          (handed-either (is_broken round.turns) (is_unstored error_text (usable round.turns))
            results)

  -- Where no error from outside wraps the service's own sentinels, the error of a run does not end
  -- the loop exactly when every module may run and every result is stored: failures of modules and
  -- of the result handler do not end it.
  pub run_once-fatal :
      (round : Round) (state : MonitorState)
      → ForeignRound Sentinel.invalid_monitor_module round
      → ForeignRound Sentinel.monitor_storage round
      → (fatal (run_once error_text round state).error ≡ none)
        ↔ ((is_broken round.turns ≡ false) × (is_unstored error_text (usable round.turns) ≡ false))
  unfolding run_once
  run_once-fatal round state f g =
      let q = take_turns error_text round.turns (started state) in
      let invalid : holds_error (finish round.result_handler q).error
            Sentinel.invalid_monitor_module
          ≡ is_broken round.turns =
        finish-holds round.result_handler q Sentinel.invalid_monitor_module f.1 refl
        ∙ loop-invalid error_text round.turns state f.0 in
      let storage : holds_error (finish round.result_handler q).error Sentinel.monitor_storage
          ≡ is_unstored error_text (usable round.turns) =
        finish-holds round.result_handler q Sentinel.monitor_storage g.1 refl
        ∙ loop-storage error_text round.turns state g.0 in
      let owned =
        finish-Owned round.result_handler q
          (take_turns-Owned error_text round.turns (started state) nil) in
      (
        λ h.
            let (x, y) = fatal-none (finish round.result_handler q).error h in
            (sym invalid ∙ x, sym storage ∙ y),
        λ h. Owned-fatal _ owned (invalid ∙ h.0) (storage ∙ h.1),
      )
