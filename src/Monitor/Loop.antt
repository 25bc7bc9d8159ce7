-- ===== src/Monitor/Loop.antt =====
-- internal/monitor/service.go: when the loop of the monitor ends.
use withdraw_bot.Prelude.{
  ℤ, pos, Bool, ap, ◌⊎◌, arith, ◌≤ℤ◌, ◌<ℤ◌, leb_ℤ, Bool-cases, if◌then◌else◌, String, none, some,
  List, [], ◌∷◌, ◌++◌, ◌≡◌, sym, inl, inr, subst, Option-cases,
}
use withdraw_bot.Errors.{Error}
use withdraw_bot.Monitor.{Round, MonitorState, run_once, Event, LoopStatus, fatal, serve, run_loop}

-- The events of runs that nothing ends.
abbrev pub ticks : List Round → List Event
ticks [] = []
ticks (round ∷ rounds) = Event.tick round ∷ ticks rounds

module _ (error_text : Error → String) where
  -- `Served rounds state after`: these runs, one after another, lead from `state` to `after`, and
  -- none of them ends the loop.
  pub data Served : List Round → MonitorState → MonitorState → Type 0 where
    idle : {state : MonitorState} → Served [] state state
    served :
        {round : Round} {rounds : List Round} {state after : MonitorState}
        → fatal (run_once error_text round state).error ≡ none
        → Served rounds (run_once error_text round state).state after
        → Served (round ∷ rounds) state after

  -- Why the loop stands where it does after the events: they were all ticks, the context ended, or
  -- a run had a fatal error; no event after that one had an effect.
  pub data Ended (state : MonitorState) : List Event → MonitorState × LoopStatus → Type 0 where
    waits :
        {rounds : List Round} {after : MonitorState}
        → Served rounds state after
        → Ended state (ticks rounds) (after, LoopStatus.running)
    cancelled :
        {rounds : List Round} {after : MonitorState} {e : Error} (rest : List Event)
        → Served rounds state after
        → Ended state (ticks rounds ++ (Event.done e ∷ rest)) (after, LoopStatus.returned e)
    failed :
        {rounds : List Round} {after : MonitorState} (round : Round) {e : Error} (rest : List Event)
        → Served rounds state after
        → fatal (run_once error_text round after).error ≡ some e
        → Ended state
            (ticks rounds ++ (Event.tick round ∷ rest))
            ((run_once error_text round after).state, LoopStatus.returned e)

  goes_on :
      (round : Round) (events : List Event) (state : MonitorState)
      → fatal (run_once error_text round state).error ≡ none
      → serve error_text (Event.tick round ∷ events) state
        ≡ serve error_text events (run_once error_text round state).state
  unfolding serve
  goes_on round events state e = rw (e, serve)

  stops :
      (round : Round) (events : List Event) (state : MonitorState) (x : Error)
      → fatal (run_once error_text round state).error ≡ some x
      → serve error_text (Event.tick round ∷ events) state
        ≡ ((run_once error_text round state).state, LoopStatus.returned x)
  unfolding serve
  stops round events state x e = rw (e, serve)

  prepend :
      {round : Round} {state : MonitorState} {events : List Event} {out : MonitorState × LoopStatus}
      → fatal (run_once error_text round state).error ≡ none
      → Ended (run_once error_text round state).state events out
      → Ended state (Event.tick round ∷ events) out
  prepend h (waits s) = waits (served h s)
  prepend h (cancelled rest s) = cancelled rest (served h s)
  prepend h (failed round rest s f) = failed round rest (served h s) f

  -- `RunLoop` after its test of the interval.
  abbrev choose : Round → List Event → MonitorState → Bool → MonitorState × LoopStatus
  choose first events state refused =
      if refused
      then (state, LoopStatus.returned (Error.message "monitor interval must be positive"))
      else serve error_text (Event.tick first ∷ events) state

  serve-Ended :
      (events : List Event) (state : MonitorState)
      → Ended state events (serve error_text events state)
  unfolding serve
  serve-Ended [] state = waits idle
  serve-Ended (Event.done e ∷ events) state = cancelled events idle
  serve-Ended (Event.tick round ∷ events) state =
      elim (Option-cases (fatal (run_once error_text round state).error))
        as (λ _.
          Ended state (Event.tick round ∷ events)
            (serve error_text (Event.tick round ∷ events) state)) [
              | inl e ↦
                  subst (Ended state (Event.tick round ∷ events))
                    (sym (goes_on round events state e))
                    (prepend e (serve-Ended events (run_once error_text round state).state))
              | inr (x, e) ↦
                  subst (Ended state (Event.tick round ∷ events))
                    (sym (stops round events state x e)) (failed round events idle e)
            ]

  -- An interval that is not positive is refused, and nothing runs. Otherwise the loop runs the first
  -- round and then one for each tick, while none has a fatal error, and it returns the first fatal
  -- error, or the error of its context if that ends before; nothing runs after that.
  pub run_loop-Ended :
      (interval : ℤ) (first : Round) (events : List Event) (state : MonitorState)
      → let outcome = run_loop error_text interval first events state in
        ((interval ≤ℤ pos 0)
          × (outcome
              ≡ (state, LoopStatus.returned (Error.message "monitor interval must be positive"))))
        ⊎ ((pos 0 <ℤ interval) × Ended state (Event.tick first ∷ events) outcome)
  unfolding run_loop
  run_loop-Ended interval first events state = elim (Bool-cases (leb_ℤ interval (pos 0))) [
    | inl e ↦ inl (ground arith, ap (choose first events state) e)
    | inr e ↦ inr (
      ground arith,
      subst (Ended state (Event.tick first ∷ events)) (sym (ap (choose first events state) e))
          (serve-Ended (Event.tick first ∷ events) state),
    )
  ]
