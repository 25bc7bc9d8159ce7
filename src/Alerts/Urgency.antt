-- ===== src/Alerts/Urgency.antt =====
-- internal/app/alerts.go: which alerts are sent and which exits are started, and in which order.
use withdraw_bot.Prelude.{
  Bool, true, false, Option, none, some, List, [], ◌∷◌, ◌++◌, append-nil, append_assoc, ◌≡◌, refl,
  sym, ap, ◌∙◌, ◌⊎◌, inl, inr, Option-cases, subst, if◌then◌else◌,
}
use withdraw_bot.Errors.{Error}
use withdraw_bot.Core.{Finding, MonitorResult, is_urgent}
use withdraw_bot.Alerts.{
  Action, AlertService, urgent_trigger, act, ◌then_do◌, handle_finding, handle_findings,
  handle_monitor_results,
}

-- What a finding calls for: an alert and then an exit if it is urgent.
abbrev finding_calls : MonitorResult → Finding → List Action
finding_calls result finding =
    if is_urgent finding.severity
    then Action.send_alert finding.message
      ∷ Action.execute_full_exit (urgent_trigger result finding)
      ∷ []
    else []

abbrev findings_call : MonitorResult → List Finding → List Action
findings_call result [] = []
findings_call result (finding ∷ findings) =
    finding_calls result finding ++ findings_call result findings

-- What the results call for, in their order.
abbrev pub results_call : List MonitorResult → List Action
results_call [] = []
results_call (result ∷ results) = findings_call result result.findings ++ results_call results

-- The actions one after another, up to the first that answers an error.
abbrev pub perform : AlertService → List Action → List Action → List Action × Option Error
perform service [] past = (past, none)
perform service (action ∷ actions) past = act service action past then_do perform service actions

then_do_assoc :
    (x : List Action × Option Error) (f g : List Action → List Action × Option Error)
    → ((x then_do f) then_do g) ≡ (x then_do (λ done. f done then_do g))
then_do_assoc (done, some e) f g = refl
then_do_assoc (done, none) f g = refl

then_do_ext :
    (x : List Action × Option Error) {f g : List Action → List Action × Option Error}
    → ((done : List Action) → f done ≡ g done)
    → (x then_do f) ≡ (x then_do g)
then_do_ext (done, some e) h = refl
then_do_ext (done, none) h = h done

perform-append :
    (service : AlertService) (a b past : List Action)
    → perform service (a ++ b) past ≡ (perform service a past then_do perform service b)
perform-append service [] b past = refl
perform-append service (x ∷ a) b past =
    then_do_ext (act service x past) (λ done. perform-append service a b done)
    ∙ sym (then_do_assoc (act service x past) (perform service a) (perform service b))

then_do_done : (x : List Action × Option Error) → (x then_do (λ done. (done, none))) ≡ x
then_do_done (done, some e) = refl
then_do_done (done, none) = refl

choice :
    (b : Bool) (service : AlertService) (x y : Action) (past : List Action)
    → (if b then (act service x past then_do act service y) else (past, none))
      ≡ perform service (if b then x ∷ y ∷ [] else []) past
choice true service x y past =
    then_do_ext (act service x past) (λ done. sym (then_do_done (act service y done)))
choice false service x y past = refl

handle_finding-perform :
    (service : AlertService) (r : MonitorResult) (f : Finding) (past : List Action)
    → handle_finding service r f past ≡ perform service (finding_calls r f) past
unfolding handle_finding
handle_finding-perform service r f past = choice (is_urgent f.severity) service _ _ past

handle_findings-perform :
    (service : AlertService) (r : MonitorResult) (fs : List Finding) (past : List Action)
    → handle_findings service r fs past ≡ perform service (findings_call r fs) past
unfolding handle_findings
handle_findings-perform service r [] past = refl
handle_findings-perform service r (f ∷ fs) past =
    ap (λ x. x then_do handle_findings service r fs) (handle_finding-perform service r f past)
    ∙ then_do_ext (perform service (finding_calls r f) past) (handle_findings-perform service r fs)
    ∙ sym (perform-append service (finding_calls r f) (findings_call r fs) past)

-- Handling the results performs, up to the first error, exactly what the results call for: for each
-- urgent finding, in the order of the results and of their findings, an alert with its message and
-- then a full exit for its result's module and its key; and nothing for any other finding.
pub handle_monitor_results-perform :
    (service : AlertService) (results : List MonitorResult) (past : List Action)
    → handle_monitor_results service results past ≡ perform service (results_call results) past
unfolding handle_monitor_results
handle_monitor_results-perform service [] past = refl
handle_monitor_results-perform service (r ∷ rs) past =
    ap (λ x. x then_do handle_monitor_results service rs)
      (handle_findings-perform service r r.findings past)
    ∙ then_do_ext (perform service (findings_call r r.findings) past)
        (handle_monitor_results-perform service rs)
    ∙ sym (perform-append service (findings_call r r.findings) (results_call rs) past)

-- Every action answers no error, after those before it.
abbrev pub Succeeds : AlertService → List Action → List Action → Type 0
Succeeds service [] past = Unit
Succeeds service (action ∷ actions) past =
    (service.answer past action ≡ none) × Succeeds service actions (past ++ (action ∷ []))

-- The outcome is that of actions of which all succeed, or of those up to one that fails.
abbrev pub Stopped : AlertService → List Action → List Action → List Action × Option Error → Type 0
Stopped service actions past outcome =
    (Succeeds service actions past × (outcome ≡ (past ++ actions, none)))
    ⊎ ((before : List Action) × (failing : Action) × (after : List Action) × (e : Error) × (actions
          ≡ before ++ (failing ∷ after))
        × Succeeds service before past
        × (service.answer (past ++ before) failing ≡ some e)
        × (outcome ≡ (past ++ (before ++ (failing ∷ [])), some e)))

pub perform_goes_on :
    (service : AlertService) (x : Action) (xs past : List Action)
    → service.answer past x ≡ none
    → perform service (x ∷ xs) past ≡ perform service xs (past ++ (x ∷ []))
perform_goes_on service x xs past e = ap (λ o. (past ++ (x ∷ []), o) then_do perform service xs) e

pub perform_stops :
    (service : AlertService) (x : Action) (xs past : List Action) (e : Error)
    → service.answer past x ≡ some e
    → perform service (x ∷ xs) past ≡ (past ++ (x ∷ []), some e)
perform_stops service x xs past e h = ap (λ o. (past ++ (x ∷ []), o) then_do perform service xs) h

Stopped-after :
    (service : AlertService) (x : Action) (xs past : List Action)
    → service.answer past x ≡ none
    → Stopped service xs (past ++ (x ∷ [])) (perform service xs (past ++ (x ∷ [])))
    → Stopped service (x ∷ xs) past (perform service (x ∷ xs) past)
Stopped-after service x xs past e (inl (s, o)) = inl (
  (e, s),
  perform_goes_on service x xs past e ∙ o ∙ ap (λ l. (l, none)) (append_assoc past (x ∷ []) xs),
)
Stopped-after service x xs past e (inr (b, f, a, er, split, s, answer, o)) = inr (
  x ∷ b,
  f,
  a,
  er,
  ap (λ l. x ∷ l) split,
  (e, s),
  subst (λ l. service.answer l f ≡ some er) (append_assoc past (x ∷ []) b) answer,
  perform_goes_on service x xs past e
      ∙ o
      ∙ ap (λ l. (l, some er)) (append_assoc past (x ∷ []) (b ++ (f ∷ []))),
)

perform-Stopped :
    (service : AlertService) (actions past : List Action)
    → Stopped service actions past (perform service actions past)
perform-Stopped service [] past = inl (tt, ap (λ l. (l, none)) (sym (append-nil past)))
perform-Stopped service (x ∷ xs) past =
    elim (Option-cases (service.answer past x))
      as (λ _. Stopped service (x ∷ xs) past (perform service (x ∷ xs) past)) [
        | inl e ↦ Stopped-after service x xs past e (perform-Stopped service xs (past ++ (x ∷ [])))
        | inr (er, e) ↦ inr (
          [],
          x,
          xs,
          er,
          refl,
          tt,
          subst (λ l. service.answer l x ≡ some er) (sym (append-nil past)) e,
          perform_stops service x xs past er e,
        )
      ]

-- Handling the results either succeeds, and then every action that they call for was performed with
-- success, or ends with the error of the first action that fails, after those before it and with no
-- action after it.
handle_monitor_results-Stopped :
    (service : AlertService) (results : List MonitorResult) (past : List Action)
    → Stopped service (results_call results) past (handle_monitor_results service results past)
handle_monitor_results-Stopped service results past =
    subst (Stopped service (results_call results) past)
      (sym (handle_monitor_results-perform service results past))
      (perform-Stopped service (results_call results) past)
