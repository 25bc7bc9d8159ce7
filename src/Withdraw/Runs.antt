-- ===== src/Withdraw/Runs.antt =====
-- internal/withdraw/service.go: every execution is one of the outcomes of the relation `Run`.
use withdraw_bot.Prelude.{
  ℕ, zero, suc, ℤ, pos, negsuc, Bool, true, false, ◌&&◌, ◌||◌, not, Option, none, some, ◌≡◌, refl,
  [], ◌∷◌, ◌++◌, inl, inr, arith, Bool-cases, Option-cases, ◌==◌, ==_iff, if◌then◌else◌,
}
use withdraw_bot.Errors.{Error, Sentinel, ok, Result-cases, is_none}
use withdraw_bot.Core.{PositionSnapshot}
use withdraw_bot.Withdraw.Types.{
  WithdrawalTrigger, WithdrawalAttempt, AttemptRepository, PendingWithdrawal, Service, State,
}
use withdraw_bot.Withdraw.Fees.{is_waiting}
use withdraw_bot.Withdraw.Submission.{
  Ready, validate_execute_config, prepare_submission, submit, submitted_result, execute_submission,
}
use withdraw_bot.Withdraw.Attempts.{
  full_exit_request, has_no_shares, has_negative_shares, attempt_of, record_attempt, no_simulation,
  fail,
}
use withdraw_bot.Withdraw.Execute.{
  failed_result, noop_result, simulation_failed_reason, execute_simulated, simulation_failed,
  execute_simulation, execute_position, execute_noop, execute_ready, execute_full_exit,
}
use withdraw_bot.Withdraw.Outcomes.{
  Exit, simulated, is_simulated, IsFree, Cleared, Run, refused, empty, unsimulated, waiting,
  rejected, submitted, unrecorded, pend,
}

and_not : (a b : Bool) → a && b ≡ true → (not a || not b) ≡ false
and_not a b h = ground arith

nand_not : (a b : Bool) → a && b ≡ false → (not a || not b) ≡ true
nand_not a b h = ground arith

not_zero : (n : ℕ) → has_no_shares (some (pos (suc n))) ≡ false
not_zero n = ground arith

pub record_attempt-stored :
    (repository : AttemptRepository) (attempt : WithdrawalAttempt) (s : State)
    → repository.insert_withdrawal_attempt attempt ≡ none
    → record_attempt repository attempt s ≡ (none, record s { stored = s.stored ++ (attempt ∷ []) })
unfolding record_attempt
record_attempt-stored repository attempt s e = rw (e, record_attempt)

record_attempt-refused :
    (repository : AttemptRepository) (attempt : WithdrawalAttempt) (s : State) {e : Error}
    → repository.insert_withdrawal_attempt attempt ≡ some e
    → record_attempt repository attempt s ≡ (some e, s)
unfolding record_attempt
record_attempt-refused repository attempt s e = rw (e, record_attempt)

module _ (service : Service) (trigger : WithdrawalTrigger) (s : State) where
  submit-Run :
      (c : Cleared service s)
      → Run service trigger s (submit service c.exit.ready trigger (simulated c.exit).0 c.sub s)
  unfolding submit
  submit-Run c = elim (Option-cases (c.exit.ready.submitter.send_transaction c.sub.signed)) [
    | inr (e, sent) ↦ rejected c e sent (rw (sent, submit))
    | inl sent ↦ elim (Option-cases (c.exit.ready.repository.insert_withdrawal_attempt attempt)) [
      | inl stored ↦ submitted c sent (
          rw (
            sent,
            submit,
            record_attempt-stored c.exit.ready.repository attempt (pend service trigger s c.sub)
                stored,
          ))
      | inr (e, stored) ↦ unrecorded c e sent (
          rw (
            sent,
            submit,
            record_attempt-refused c.exit.ready.repository attempt (pend service trigger s c.sub)
                stored,
          ))
    ]
  ]
    where
      attempt : WithdrawalAttempt
      attempt =
          attempt_of service trigger (submitted_result c.sub (simulated c.exit).0)
            (simulated c.exit).0 ""

  module _ (x : Exit service) where
    execute_submission-Run :
        is_simulated x ≡ true
        → IsFree service s
        → Run service trigger s (
            execute_submission service x.ready trigger x.position.owner
              (full_exit_request x.position)
              (simulated x).0
              s)
    unfolding execute_submission
    execute_submission-Run sim free =
        elim (Result-cases (
          prepare_submission service x.ready s.pending x.position.owner
            (full_exit_request x.position) (simulated x).0)) [
              | inl (sub, e) ↦
                  rw (e, execute_submission)
                    (submit-Run
                      (record { exit = x; sub = sub; succeeded = sim; free = free; prepared = e }))
              | inr (e, p) ↦ refused e (rw (p, execute_submission))
            ]

    execute_simulated-Run :
        (pending : Option PendingWithdrawal)
        → s.pending ≡ pending
        → is_simulated x ≡ true
        → Run service trigger s (
            execute_simulated service x.ready trigger x.position.owner
              (full_exit_request x.position)
              (simulated x).0
              pending
              s)
    unfolding execute_simulated
    execute_simulated-Run none e sim = execute_submission-Run sim (λ p h. cc)
    execute_simulated-Run (some p) e sim = elim (Bool-cases (is_waiting service p)) [
      | inl w ↦ waiting x p sim e w (rw w)
      | inr w ↦ rw w (execute_submission-Run sim (λ q h. ground arith))
    ]

    simulation_failed-Run :
        is_simulated x ≡ false
        → Run service trigger s (simulation_failed service x.ready trigger (simulated x).0 s)
    unfolding simulation_failed
    simulation_failed-Run sim =
        elim (Option-cases (x.ready.repository.insert_withdrawal_attempt attempt)) [
          | inl stored ↦
              unsimulated x sim
                (rw (record_attempt-stored x.ready.repository attempt s stored, simulation_failed))
          | inr (e, stored) ↦
              refused e
                (rw (record_attempt-refused x.ready.repository attempt s stored, simulation_failed))
        ]
      where
        attempt : WithdrawalAttempt
        attempt =
            attempt_of service trigger (failed_result (simulated x).0) (simulated x).0
              simulation_failed_reason

    execute_simulation-Run : Run service trigger s (
        execute_simulation service x.ready trigger x.position.owner
          (full_exit_request x.position)
          (simulated x)
          s)
    unfolding execute_simulation
    execute_simulation-Run = elim (Bool-cases (is_simulated x)) [
      | inl sim ↦
          rw (and_not (is_none (simulated x).1) (simulated x).0.success sim)
            (execute_simulated-Run s.pending refl sim)
      | inr sim ↦
          rw (nand_not (is_none (simulated x).1) (simulated x).0.success sim)
            (simulation_failed-Run sim)
    ]

  execute_noop-Run :
      (ready : Ready) (position : PositionSnapshot)
      → validate_execute_config service ≡ ok ready
      → ready.adapter.position ≡ ok position
      → has_no_shares position.share_balance ≡ true
      → Run service trigger s (execute_noop service ready trigger s)
  unfolding execute_noop
  execute_noop-Run ready position configured positioned none_left =
      elim (Option-cases (ready.repository.insert_withdrawal_attempt attempt)) [
        | inl stored ↦
            empty ready position configured positioned none_left
              (rw (record_attempt-stored ready.repository attempt s stored, execute_noop))
        | inr (e, stored) ↦
            refused e (rw (record_attempt-refused ready.repository attempt s stored, execute_noop))
      ]
    where
      attempt : WithdrawalAttempt
      attempt = attempt_of service trigger noop_result no_simulation ""

  execute_position-Run :
      (ready : Ready) (position : PositionSnapshot) (shares : ℕ)
      → validate_execute_config service ≡ ok ready
      → ready.adapter.position ≡ ok position
      → position.share_balance ≡ some (pos (suc shares))
      → Run service trigger s (execute_position service ready trigger position s)
  unfolding execute_position
  execute_position-Run ready position shares configured positioned has =
      elim (Result-cases ready.signer.address) [
        | inr (e, unread) ↦
            refused (Error.wrapped "read signer address" e) (rw (unread, execute_position))
        | inl (a, read) ↦ elim (Bool-cases (a == position.owner)) [
          | inr other ↦
              refused (Error.sentinel Sentinel.signer_owner_mismatch)
                (rw (read, execute_position, other))
          | inl same ↦
              let e : a ≡ position.owner = (==_iff a position.owner).0 same in
              rw (read, execute_position, same, e)
                (execute_simulation-Run (record {
                  ready = ready;
                  position = position;
                  shares = shares;
                  configured = configured;
                  positioned = positioned;
                  has_shares = has;
                  owned = rw (← e) read;
                }))
        ]
      ]

  -- The rest of `execute_ready`, at a balance of each form.
  balance-Run :
      (ready : Ready) (position : PositionSnapshot)
      → validate_execute_config service ≡ ok ready
      → ready.adapter.position ≡ ok position
      → (balance : Option ℤ) → position.share_balance ≡ balance
      → Run service trigger s (
          if has_no_shares balance
          then execute_noop service ready trigger s
          else if has_negative_shares balance
          then fail (Error.message "share balance must be non-negative") s
          else execute_position service ready trigger position s)
  balance-Run ready position configured positioned none e =
      execute_noop-Run ready position configured positioned (rw e)
  balance-Run ready position configured positioned (some (pos zero)) e =
      execute_noop-Run ready position configured positioned (rw e)
  balance-Run ready position configured positioned (some (pos (suc n))) e =
      rw (not_zero n) (execute_position-Run ready position n configured positioned e)
  balance-Run ready position configured positioned (some (negsuc n)) e =
      refused (Error.message "share balance must be non-negative") (ground arith)

  execute_ready-Run :
      (ready : Ready)
      → validate_execute_config service ≡ ok ready
      → Run service trigger s (execute_ready service ready trigger s)
  unfolding execute_ready
  execute_ready-Run ready configured = elim (Result-cases ready.adapter.position) [
    | inr (e, p) ↦ refused e (rw (p, execute_ready))
    | inl (position, p) ↦
        rw (p, execute_ready) (balance-Run ready position configured p position.share_balance refl)
  ]

  -- Every execution, from any state, is one of the outcomes of `Run`: refused with nothing changed,
  -- a stored no-op, a stored simulation failure, a report of the pending submission, a transaction
  -- that the network refused, or a transaction that was sent and is pending.
  pub execute_full_exit-Run : Run service trigger s (execute_full_exit service trigger s)
  unfolding execute_full_exit
  execute_full_exit-Run = elim (Result-cases (validate_execute_config service)) [
    | inr (e, c) ↦ refused e (rw (c, execute_full_exit))
    | inl (ready, c) ↦ rw (c, execute_full_exit) (execute_ready-Run ready c)
  ]
