-- ===== src/Withdraw/Outcomes.antt =====
-- internal/withdraw/service.go: everything that one execution can do, as a relation between the
-- state it starts from and its outcome.
use withdraw_bot.Prelude.{
  ℕ, suc, pos, Bool, true, false, ◌&&◌, Option, none, some, [], ◌∷◌, ◌++◌, ◌≡◌,
}
use withdraw_bot.Errors.{Error, Sentinel, ok, is_none}
use withdraw_bot.Core.{PositionSnapshot, FullExitSimulation}
use withdraw_bot.Withdraw.Types.{WithdrawalTrigger, PendingWithdrawal, Service, State}
use withdraw_bot.Withdraw.Fees.{is_waiting}
use withdraw_bot.Withdraw.Attempts.{
  Outcome, full_exit_request, has_no_shares, attempt_of, no_simulation, fail,
}
use withdraw_bot.Withdraw.Submission.{
  Ready, Submission, validate_execute_config, prepare_submission, submitted_result, pending_of,
}
use withdraw_bot.Withdraw.Execute.{
  waiting_result, failed_result, noop_result, simulation_failed_reason,
}

-- A configured service whose signer owns a position with shares.
pub record Exit (service : Service) : Type 0 where
  pub ready : Ready
  pub position : PositionSnapshot
  pub shares : ℕ
  pub configured : validate_execute_config service ≡ ok ready
  pub positioned : ready.adapter.position ≡ ok position
  pub has_shares : position.share_balance ≡ some (pos (suc shares))
  pub owned : ready.signer.address ≡ ok position.owner

module _ {service : Service} (x : Exit service) where
  -- The simulation of the full exit, and its error.
  abbrev pub simulated : FullExitSimulation × Option Error
  simulated = x.ready.adapter.simulate_full_exit (full_exit_request x.position)

  abbrev pub is_simulated : Bool
  is_simulated = is_none simulated.1 && simulated.0.success

-- Nothing is pending that is still within the replacement timeout.
abbrev pub IsFree : Service → State → Type 0
IsFree service s = (p : PendingWithdrawal) → s.pending ≡ some p → is_waiting service p ≡ false

-- A transaction for the whole position, simulated, built, priced and signed.
pub record Cleared (service : Service) (s : State) : Type 0 where
  pub exit : Exit service
  pub sub : Submission
  pub succeeded : is_simulated exit ≡ true
  pub free : IsFree service s
  pub prepared :
      prepare_submission service exit.ready s.pending exit.position.owner
        (full_exit_request exit.position)
        (simulated exit).0
      ≡ ok sub

module _ (service : Service) (trigger : WithdrawalTrigger) (s : State) where
  abbrev pub hand : Submission → State
  hand sub = record s { handed = s.handed ++ (sub.signed ∷ []) }

  abbrev pub pend : Submission → State
  pend sub = record s {
    handed = s.handed ++ (sub.signed ∷ []);
    pending = some (pending_of service sub);
  }

  pub data Run (o : Outcome) : Type 0 where
    -- An error, and nothing has changed.
    refused : (e : Error) → o ≡ fail e s → Run o
    -- No shares: nothing is pending any more, and a no-op is stored.
    empty :
        (ready : Ready) (position : PositionSnapshot)
        → validate_execute_config service ≡ ok ready
        → ready.adapter.position ≡ ok position
        → has_no_shares position.share_balance ≡ true
        → o ≡ (
          noop_result,
          none,
          record s {
            pending = none;
            stored = s.stored ++ (attempt_of service trigger noop_result no_simulation "" ∷ []);
          },
        )
        → Run o
    -- The simulation failed, and the failure is stored.
    unsimulated :
        (x : Exit service)
        → is_simulated x ≡ false
        → o ≡ (
          failed_result (simulated x).0,
          some (Error.sentinel Sentinel.simulation_failed),
          record s {
            stored =
                s.stored
                ++ (attempt_of service trigger
                      (failed_result (simulated x).0)
                      (simulated x).0
                      simulation_failed_reason
                    ∷ []);
          },
        )
        → Run o
    -- The pending submission is reported again, and nothing has changed.
    waiting :
        (x : Exit service) (p : PendingWithdrawal)
        → is_simulated x ≡ true
        → s.pending ≡ some p
        → is_waiting service p ≡ true
        → o ≡ (waiting_result p (simulated x).0, none, s)
        → Run o
    -- The network refused the transaction.
    rejected :
        (c : Cleared service s) (e : Error)
        → c.exit.ready.submitter.send_transaction c.sub.signed ≡ some e
        → o ≡ fail (Error.wrapped "submit full-exit transaction" e) (hand c.sub)
        → Run o
    -- The transaction was sent and is pending, and its attempt is stored.
    submitted :
        (c : Cleared service s)
        → c.exit.ready.submitter.send_transaction c.sub.signed ≡ none
        → o ≡ (
          submitted_result c.sub (simulated c.exit).0,
          none,
          record (pend c.sub) {
            stored =
                s.stored
                ++ (attempt_of service trigger
                      (submitted_result c.sub (simulated c.exit).0)
                      (simulated c.exit).0
                      ""
                    ∷ []);
          },
        )
        → Run o
    -- The transaction was sent and is pending, and its attempt could not be stored.
    unrecorded :
        (c : Cleared service s) (e : Error)
        → c.exit.ready.submitter.send_transaction c.sub.signed ≡ none
        → o ≡ (submitted_result c.sub (simulated c.exit).0, some e, pend c.sub)
        → Run o
