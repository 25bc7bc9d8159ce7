-- ===== src/Monitor/Turns.antt =====
-- internal/monitor/service.go: what a run reports and stores.
use withdraw_bot.Prelude.{
  String, Bool, true, false, Option, none, some, List, [], ◌∷◌, ◌++◌, map, append-nil, append_assoc,
  ◌≡◌, refl, sym, ap, ◌∙◌, inl, inr, subst,
}
use withdraw_bot.Errors.{Error, ok, err, Result-cases}
use withdraw_bot.Core.{Time, MonitorModuleId, MonitorResult}
use withdraw_bot.Monitor.{
  Module, Turn, MonitorState, Round, Progress, put, checked, refuse, finish, observe, take_turn,
  take_turns, should_handle_monitor_results, hand_over_if, hand_over, started, run_once,
}

-- The turns before the first module that may not run, each with its module.
abbrev pub usable : List Turn → List (Turn × Module)
usable [] = []
usable (turn ∷ turns) = elim (checked turn.monitor_module) [
  | ok m ↦ (turn, m) ∷ usable turns
  | err _ ↦ []
]

-- `Latest` after the results, put one by one.
abbrev pub put_all :
    List MonitorResult
    → List (MonitorModuleId × MonitorResult)
    → List (MonitorModuleId × MonitorResult)
put_all [] latest = latest
put_all (result ∷ results) latest = put_all results (put result.module_id result latest)

-- The handler changes neither the results nor what is stored.
abbrev SameReports : Progress → Progress → Type 0
SameReports p q =
    (q.results ≡ p.results)
    × (q.state.inserted ≡ p.state.inserted)
    × (q.state.latest ≡ p.state.latest)

hand_over_if-SameReports :
    (b : Bool) (handle : List MonitorResult → Option Error) (p : Progress)
    → SameReports p (hand_over_if b handle p)
hand_over_if-SameReports true handle p = (refl, refl, refl)
hand_over_if-SameReports false handle p = (refl, refl, refl)

hand_over-SameReports :
    (o : Option (List MonitorResult → Option Error)) (p : Progress) → SameReports p (hand_over o p)
unfolding hand_over
hand_over-SameReports none p = (refl, refl, refl)
hand_over-SameReports (some handle) p =
    hand_over_if-SameReports (should_handle_monitor_results p.error) handle p

finish-SameReports :
    (o : Option (List MonitorResult → Option Error)) (q : Progress × Bool)
    → SameReports q.0 (finish o q)
finish-SameReports o (p, true) = hand_over-SameReports o p
finish-SameReports o (p, false) = (refl, refl, refl)

module _ (error_text : Error → String) where
  -- The results of the modules that may run, in order.
  abbrev pub observed : List Turn → List MonitorResult
  observed turns = map (λ t. observe error_text t.0 t.1) (usable turns)

  -- The same, each with the time at which it is handed to storage.
  abbrev pub timed : List Turn → List (MonitorResult × Time)
  timed turns = map (λ t. (observe error_text t.0 t.1, t.0.stored_at)) (usable turns)

  -- A run from `before` to `after` in which the given modules had their turns.
  abbrev pub Reports : List (Turn × Module) → Progress → Progress → Type 0
  Reports had before after =
      (after.results ≡ before.results ++ map (λ t. observe error_text t.0 t.1) had)
      × (after.state.inserted
          ≡ before.state.inserted ++ map (λ t. (observe error_text t.0 t.1, t.0.stored_at)) had)
      × (after.state.latest
          ≡ put_all (map (λ t. observe error_text t.0 t.1) had) before.state.latest)
      × (after.state.handled ≡ before.state.handled)

  observe-module_id : (turn : Turn) (m : Module) → (observe error_text turn m).module_id ≡ m.id
  unfolding observe
  observe-module_id turn m = refl

  take_turn-Reports :
      (turn : Turn) (m : Module) (p : Progress)
      → Reports ((turn, m) ∷ []) p (take_turn error_text turn m p)
  unfolding take_turn
  take_turn-Reports turn m p = (
    refl,
    refl,
    ap (λ id. put id (observe error_text turn m) p.state.latest) (sym (observe-module_id turn m)),
    refl,
  )

  Reports-then :
      (p q r : Progress) (t : Turn × Module) (had : List (Turn × Module))
      → Reports (t ∷ []) p q
      → Reports had q r
      → Reports (t ∷ had) p r
  Reports-then p q r t had (h0, h1, h2, h3) (k0, k1, k2, k3) = (
    k0
        ∙ ap (λ x. x ++ map (λ t. observe error_text t.0 t.1) had) h0
        ∙ append_assoc p.results (observe error_text t.0 t.1 ∷ []) _,
    k1
        ∙ ap (λ x. x ++ map (λ t. (observe error_text t.0 t.1, t.0.stored_at)) had) h1
        ∙ append_assoc p.state.inserted ((observe error_text t.0 t.1, t.0.stored_at) ∷ []) _,
    k2 ∙ ap (put_all (map (λ t. observe error_text t.0 t.1) had)) h2,
    k3 ∙ h3,
  )

  -- The step of the loop on a module that may run, and on one that may not.
  pub take_turns-ok :
      (turn : Turn) (turns : List Turn) (p : Progress) (m : Module)
      → checked turn.monitor_module ≡ ok m
      → (take_turns error_text (turn ∷ turns) p
          ≡ take_turns error_text turns (take_turn error_text turn m p))
        × (usable (turn ∷ turns) ≡ (turn, m) ∷ usable turns)
  unfolding take_turns
  take_turns-ok turn turns p m e = (rw (e, take_turns), rw (e, usable))

  pub take_turns-err :
      (turn : Turn) (turns : List Turn) (p : Progress) (x : Error)
      → checked turn.monitor_module ≡ err x
      → (take_turns error_text (turn ∷ turns) p ≡ (refuse x p, false))
        × (usable (turn ∷ turns) ≡ [])
  unfolding take_turns
  take_turns-err turn turns p x e = (rw (e, take_turns), rw (e, usable))

  Reports-none : (p q : Progress) → q.results ≡ p.results → q.state ≡ p.state → Reports [] p q
  Reports-none p q h k = (
    h ∙ sym (append-nil p.results),
    ap (λ s. s.inserted) k ∙ sym (append-nil p.state.inserted),
    ap (λ s. s.latest) k,
    ap (λ s. s.handled) k,
  )

  pub take_turns-Reports :
      (turns : List Turn) (p : Progress)
      → Reports (usable turns) p (take_turns error_text turns p).0
  unfolding take_turns
  take_turns-Reports [] p = Reports-none p p refl refl
  take_turns-Reports (turn ∷ turns) p =
      elim (Result-cases (checked turn.monitor_module))
        as (λ _. Reports (usable (turn ∷ turns)) p (take_turns error_text (turn ∷ turns) p).0) [
          | inl (m, e) ↦
              let (step, had) = take_turns-ok turn turns p m e in
              subst (λ x. Reports x p (take_turns error_text (turn ∷ turns) p).0) (sym had)
                (subst (λ x. Reports ((turn, m) ∷ usable turns) p x.0) (sym step)
                  (Reports-then p (take_turn error_text turn m p)
                    (take_turns error_text turns (take_turn error_text turn m p)).0 (turn, m)
                    (usable turns) (take_turn-Reports turn m p)
                    (take_turns-Reports turns (take_turn error_text turn m p))))
          | inr (x, e) ↦
              let (step, had) = take_turns-err turn turns p x e in
              subst (λ y. Reports y p (take_turns error_text (turn ∷ turns) p).0) (sym had)
                (subst (λ y. Reports [] p y.0) (sym step) (Reports-none p (refuse x p) refl refl))
        ]

  -- A run returns one result for each module before the first that may not run, in order, under
  -- that module's id; those results, and no others, are handed to storage and put in `Latest`,
  -- whether or not storage or the result handler fails.
  pub run_once-observed :
      (round : Round) (state : MonitorState)
      → let p = run_once error_text round state in
        (p.results ≡ observed round.turns)
        × (p.state.inserted ≡ state.inserted ++ timed round.turns)
        × (p.state.latest ≡ put_all (observed round.turns) state.latest)
  unfolding run_once
  run_once-observed round state =
      let (h0, h1, h2, h3) = take_turns-Reports round.turns (started state) in
      let (k0, k1, k2) =
        finish-SameReports round.result_handler
          (take_turns error_text round.turns (started state)) in
      (k0 ∙ h0, k1 ∙ h1, k2 ∙ h2)
