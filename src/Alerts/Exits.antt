-- ===== src/Alerts/Exits.antt =====
-- internal/app/alerts.go with runtime.go: the handler of the results over the withdrawal service.
use Prim.Native.Nat.{min}
use withdraw_bot.Prelude.{
  ℕ, pos, ◌+◌, ◌≤◌, ◌<◌, String, Option, none, some, List, [], ◌∷◌, ◌++◌, append-nil, append_assoc,
  ◌≡◌, inl, inr, sym, ap, ◌∙◌, Option-cases,
}
use withdraw_bot.Errors.{Error, ok}
use withdraw_bot.Core.{MonitorResult}
use withdraw_bot.Gas.Bump.{capped_policy, caps}
use withdraw_bot.Withdraw.Types.{WithdrawalTrigger, Service, State}
use withdraw_bot.Ethereum.{SignedTx}
use withdraw_bot.Withdraw.Execute.{execute_full_exit}
use withdraw_bot.Withdraw.Safety.{hands_only-Cleared}
use withdraw_bot.Withdraw.Liveness.{Reachable, Accepts, first_exit_submits}
use withdraw_bot.Alerts.{Action, AlertService, handle_monitor_results}
use withdraw_bot.Alerts.Urgency.{
  results_call, perform, perform_goes_on, perform_stops, handle_monitor_results-perform,
}

-- `urgentWithdrawer.HandleUrgent`: an execution, of which the result is dropped.
abbrev pub handle_urgent : Service → WithdrawalTrigger → State → State × Option Error
handle_urgent service trigger s =
    let (result, e, after) = execute_full_exit service trigger s in (after, e)

-- The state of the withdrawal service after the actions `todo`, with `past` before them. The service
-- is given with what its environment answers at that point of the handling.
abbrev pub after_actions : (List Action → Service) → List Action → List Action → State → State
after_actions services past [] s = s
after_actions services past (Action.send_alert text ∷ todo) s =
    after_actions services (past ++ (Action.send_alert text ∷ [])) todo s
after_actions services past (Action.execute_full_exit trigger ∷ todo) s =
    after_actions services (past ++ (Action.execute_full_exit trigger ∷ [])) todo
      (handle_urgent (services past) trigger s).0

module _ (services : List Action → Service) (notify : List Action → String → Option Error)
    (s : State) where
  abbrev pub answer_of : List Action → Action → Option Error
  answer_of past (Action.send_alert text) = notify past text
  answer_of past (Action.execute_full_exit trigger) =
      (handle_urgent (services past) trigger (after_actions services [] past s)).1

  -- The alert service of `buildMonitorServices`, whose exits start in the state `s`.
  abbrev pub alert_service_of : AlertService
  alert_service_of = record { answer = answer_of }

-- Exits add to what was handed out, and take nothing back.
abbrev Adds : List SignedTx → List SignedTx → Type 0
Adds before after = (later : List SignedTx) × (after ≡ before ++ later)

Adds-trans : (a b c : List SignedTx) → Adds a b → Adds b c → Adds a c
Adds-trans a b c (x, ab) (y, bc) = (x ++ y, bc ∙ ap (λ l. l ++ y) ab ∙ append_assoc a x y)

handle_urgent-Adds :
    (service : Service) (trigger : WithdrawalTrigger) (s : State)
    → Adds s.handed (handle_urgent service trigger s).0.handed
handle_urgent-Adds service trigger s = elim (hands_only-Cleared service trigger s) [
  | inl same ↦ ([], same ∙ sym (append-nil s.handed))
  | inr (c, more) ↦ (c.sub.signed ∷ [], more)
]

after_actions-Adds :
    (services : List Action → Service) (past todo : List Action) (s : State)
    → Adds s.handed (after_actions services past todo s).handed
after_actions-Adds services past [] s = ([], sym (append-nil s.handed))
after_actions-Adds services past (Action.send_alert text ∷ todo) s =
    after_actions-Adds services (past ++ (Action.send_alert text ∷ [])) todo s
after_actions-Adds services past (Action.execute_full_exit trigger ∷ todo) s =
    let next = (handle_urgent (services past) trigger s).0 in
    let later = past ++ (Action.execute_full_exit trigger ∷ []) in
    Adds-trans s.handed next.handed (after_actions services later todo next).handed
      (handle_urgent-Adds (services past) trigger s) (after_actions-Adds services later todo next)

-- What is done after `past` takes nothing of it back.
abbrev Extends : AlertService → List Action → List Action → Type 0
Extends alerts actions past =
    (more : List Action) × ((perform alerts actions past).0 ≡ past ++ more)

perform_first_by :
    (alerts : AlertService) (x : Action) (xs past : List Action)
    → Extends alerts xs (past ++ (x ∷ []))
    → (more : List Action) × ((perform alerts (x ∷ xs) past).0 ≡ past ++ (x ∷ more))
perform_first_by alerts x xs past (more, same) = elim (Option-cases (alerts.answer past x)) [
  | inl passed ↦ (
    more,
    ap (λ r. r.0) (perform_goes_on alerts x xs past passed)
        ∙ same
        ∙ append_assoc past (x ∷ []) more,
  )
  | inr (e, failed) ↦ ([], ap (λ r. r.0) (perform_stops alerts x xs past e failed))
]

perform-Extends : (alerts : AlertService) (actions past : List Action) → Extends alerts actions past
perform-Extends alerts [] past = ([], sym (append-nil past))
perform-Extends alerts (x ∷ xs) past =
    let (more, same) =
      perform_first_by alerts x xs past (perform-Extends alerts xs (past ++ (x ∷ []))) in
    (x ∷ more, same)

module _ (services : List Action → Service) (notify : List Action → String → Option Error)
    (s : State) (results : List MonitorResult) {message : String} {trigger : WithdrawalTrigger}
    {rest : List Action}
    (called : results_call results
      ≡ Action.send_alert message ∷ Action.execute_full_exit trigger ∷ rest)
    (alerted : notify [] message ≡ none) where
  abbrev done : List Action
  done = (handle_monitor_results (alert_service_of services notify s) results []).0

  -- The first exit starts at once, in the state that the results were found in.
  done-exit :
      (more : List Action) × (done
        ≡ Action.send_alert message ∷ Action.execute_full_exit trigger ∷ more)
  done-exit =
      let alerts = alert_service_of services notify s in
      let alert = Action.send_alert message in
      let exit = Action.execute_full_exit trigger in
      let (more, same) =
        perform_first_by alerts exit rest (alert ∷ [])
          (perform-Extends alerts rest (alert ∷ exit ∷ [])) in
      (
        more,
        ap (λ r. r.0)
              (handle_monitor_results-perform alerts results []
                ∙ ap (λ actions. perform alerts actions []) called
                ∙ perform_goes_on alerts alert (exit ∷ rest) [] alerted)
            ∙ same,
      )

  exit-handed :
      (signed : SignedTx)
      → (execute_full_exit (services (Action.send_alert message ∷ [])) trigger s).2.handed
        ≡ s.handed ++ (signed ∷ [])
      → (later : List SignedTx) × ((after_actions services [] done s).handed
          ≡ s.handed ++ (signed ∷ later))
  exit-handed signed h =
      let (more, same) = done-exit in
      let alert = Action.send_alert message in
      let (later, adds) =
        after_actions-Adds services (alert ∷ Action.execute_full_exit trigger ∷ []) more
          (execute_full_exit (services (alert ∷ [])) trigger s).2 in
      (
        later,
        ap (λ actions. (after_actions services [] actions s).handed) same
            ∙ adds
            ∙ ap (λ l. l ++ later) h
            ∙ append_assoc s.handed (signed ∷ []) later,
      )

-- Where the first urgent finding is alerted, nothing is pending, the fees are as for a first exit, and
-- an exit is built, signed, sent and stored: handling the results hands out the signed transaction of
-- that exit before any other, whatever else the results hold and whatever fails later.
pub alerted_exit_submits :
    (services : List Action → Service) (notify : List Action → String → Option Error) (s : State)
    (results : List MonitorResult) (message : String) (trigger : WithdrawalTrigger)
    (rest : List Action) (x : Reachable (services (Action.send_alert message ∷ [])))
    (n bps fee_cap tip_cap price tip : ℕ)
    → results_call results ≡ Action.send_alert message ∷ Action.execute_full_exit trigger ∷ rest
    → notify [] message ≡ none
    → s.pending ≡ none
    → (services (Action.send_alert message ∷ [])).gas_policy ≡ capped_policy bps fee_cap tip_cap
    → 0 < tip_cap
    → tip_cap ≤ fee_cap
    → x.ready.submitter.pending_nonce_at x.position.owner ≡ ok n
    → x.ready.submitter.suggest_gas_price ≡ ok (some (pos price))
    → x.ready.submitter.suggest_gas_tip_cap ≡ ok (some (pos tip))
    → 0 < price
    → 0 < tip
    → (acc : Accepts
        (services (Action.send_alert message ∷ []))
        trigger
        s
        x
        n
        (caps (min fee_cap (price + min tip_cap tip)) (min tip_cap tip)))
    → let done = (handle_monitor_results (alert_service_of services notify s) results []).0 in
      (later : List SignedTx) × ((after_actions services [] done s).handed
        ≡ s.handed ++ (acc.signed ∷ later))
alerted_exit_submits services notify s results message trigger rest x n bps fee_cap tip_cap price
      tip called alerted idle policy hc hf hn hp ht p0 t0 acc =
    exit-handed services notify s results called alerted acc.signed (
      ap (λ o. o.2.handed)
        (first_exit_submits (services (Action.send_alert message ∷ [])) trigger s x n bps fee_cap
          tip_cap price tip idle policy hc hf hn hp ht p0 t0 acc))
