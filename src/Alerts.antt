-- ===== src/Alerts.antt =====
-- internal/app/alerts.go: the handler of monitor results, which alerts and withdraws.
pub mod Urgency
pub mod Exits
use withdraw_bot.Prelude.{String, Bool, Option, none, some, List, [], ◌∷◌, ◌++◌, if◌then◌else◌}
use withdraw_bot.Errors.{Error}
use withdraw_bot.Core.{Severity, Finding, MonitorResult, is_urgent}
use withdraw_bot.Withdraw.Types.{WithdrawalTrigger, trigger_kind_urgent}

-- What the handler does to the outside: it sends an alert, or starts a full exit.
pub data Action : Type 0 where
  send_alert : String → Action
  execute_full_exit : WithdrawalTrigger → Action

-- The notifier and the withdrawer, by what they answer to an action after the ones before.
pub record AlertService : Type 0 where
  pub answer : List Action → Action → Option Error

-- The trigger of `urgentWithdrawer.HandleUrgent`.
abbrev pub urgent_trigger : MonitorResult → Finding → WithdrawalTrigger
urgent_trigger result finding = record {
  kind = trigger_kind_urgent;
  module_id = result.module_id;
  finding_key = finding.key;
}

infixl 4 ◌then_do◌
-- One action, and the error that it answers.
abbrev pub act : AlertService → Action → List Action → List Action × Option Error
act service action past = (past ++ (action ∷ []), service.answer past action)

-- `if err != nil { return err }` before what follows.
abbrev pub ◌then_do◌ :
    List Action × Option Error
    → (List Action → List Action × Option Error)
    → List Action × Option Error
(done, some e) then_do next = (done, some e)
(done, none) then_do next = next done

-- The body of the loop, after the actions `past`: the actions after it, and its error.
unfoldable pub handle_finding :
    AlertService → MonitorResult → Finding → List Action → List Action × Option Error
handle_finding service result finding past =
    if is_urgent finding.severity
    then (act service (Action.send_alert finding.message) past
        then_do act service (Action.execute_full_exit (urgent_trigger result finding)))
    else (past, none)

unfoldable pub handle_findings :
    AlertService → MonitorResult → List Finding → List Action → List Action × Option Error
unfolding handle_finding
handle_findings service result [] past = (past, none)
handle_findings service result (finding ∷ findings) past =
    handle_finding service result finding past then_do handle_findings service result findings

-- `HandleMonitorResults`
unfoldable pub handle_monitor_results :
    AlertService → List MonitorResult → List Action → List Action × Option Error
unfolding handle_findings
handle_monitor_results service [] past = (past, none)
handle_monitor_results service (result ∷ results) past =
    handle_findings service result result.findings past
    then_do handle_monitor_results service results
