-- ===== src/Withdraw/Liveness.antt =====
-- internal/withdraw/service.go: when an execution is bound to submit the exit, and with which
-- transaction.
use Prim.Native.Nat.{min}
use withdraw_bot.Prelude.{
  ℕ, suc, pos, ◌+◌, ◌≤◌, ◌<◌, true, false, Option, none, some, [], ◌∷◌, ◌++◌, ◌≡◌, ◌∙◌, arith, ap,
}
use withdraw_bot.Errors.{ok}
use withdraw_bot.Core.{Address, PositionSnapshot, FullExitRequest, FullExitSimulation, TxCandidate}
use withdraw_bot.Gas.{FeeCaps}
use withdraw_bot.Gas.Bump.{capped_policy, caps, raised_caps, bump_checked_total}
use withdraw_bot.Ethereum.{SignedTx}
use withdraw_bot.Withdraw.Types.{WithdrawalTrigger, PendingWithdrawal, Service, State}
use withdraw_bot.Withdraw.Fees.{is_waiting, nonce_and_fee_caps, buffered_gas, build_dynamic_fee_tx}
use withdraw_bot.Withdraw.Attempts.{Outcome, full_exit_request, attempt_of}
use withdraw_bot.Withdraw.Submission.{
  Ready, Submission, submitted_result, validate_execute_config, prepare_submission, submit,
  execute_submission,
}
use withdraw_bot.Withdraw.Execute.{
  execute_simulated, execute_simulation, execute_position, execute_ready, execute_full_exit,
  waiting_result,
}
use withdraw_bot.Withdraw.Pricing.{is_due-not-is_waiting, initial_fee_caps_total}
use withdraw_bot.Withdraw.Outcomes.{pend}
use withdraw_bot.Withdraw.Runs.{record_attempt-stored}

-- A configured service, a position with shares that the signer owns, and a simulation that
-- succeeds.
pub record Reachable (service : Service) : Type 0 where
  pub ready : Ready
  pub position : PositionSnapshot
  pub shares : ℕ
  pub simulation : FullExitSimulation
  pub configured : validate_execute_config service ≡ ok ready
  pub positioned : ready.adapter.position ≡ ok position
  pub has_shares : position.share_balance ≡ some (pos (suc shares))
  pub owned : ready.signer.address ≡ ok position.owner
  pub simulated : ready.adapter.simulate_full_exit (full_exit_request position) ≡ (simulation, none)
  pub succeeded : simulation.success ≡ true

execute_ready-position :
    (service : Service) (ready : Ready) (trigger : WithdrawalTrigger) (s : State)
    (position : PositionSnapshot) (shares : ℕ)
    → ready.adapter.position ≡ ok position
    → position.share_balance ≡ some (pos (suc shares))
    → execute_ready service ready trigger s ≡ execute_position service ready trigger position s
unfolding execute_ready
execute_ready-position service ready trigger s position shares p h = ground arith

execute_position-simulation :
    (service : Service) (ready : Ready) (trigger : WithdrawalTrigger) (s : State)
    (position : PositionSnapshot)
    → ready.signer.address ≡ ok position.owner
    → execute_position service ready trigger position s
      ≡ execute_simulation service ready trigger position.owner
          (full_exit_request position)
          (ready.adapter.simulate_full_exit (full_exit_request position))
          s
unfolding execute_position
execute_position-simulation service ready trigger s position h = ground arith

execute_simulation-simulated :
    (service : Service) (ready : Ready) (trigger : WithdrawalTrigger) (s : State) (a : Address)
    (request : FullExitRequest) (simulation : FullExitSimulation)
    → simulation.success ≡ true
    → execute_simulation service ready trigger a request (simulation, none) s
      ≡ execute_simulated service ready trigger a request simulation s.pending s
unfolding execute_simulation
execute_simulation-simulated service ready trigger s a request simulation h = ground arith

module _ (service : Service) (trigger : WithdrawalTrigger) (s : State) (x : Reachable service) where
  open x use {ready, position, simulation}

  execute_full_exit-simulated :
      execute_full_exit service trigger s
      ≡ execute_simulated service ready trigger position.owner
          (full_exit_request position)
          simulation
          s.pending
          s
  unfolding execute_full_exit
  execute_full_exit-simulated =
      rw (x.configured, execute_full_exit)
        (execute_ready-position service ready trigger s position x.shares x.positioned x.has_shares
          ∙ execute_position-simulation service ready trigger s position x.owned
          ∙ rw x.simulated (
              execute_simulation-simulated service ready trigger s position.owner
                (full_exit_request position) simulation x.succeeded))

  -- While a submission is within the replacement timeout, an execution submits nothing: it reports
  -- the pending transaction, and the state stays as it was.
  waiting_reports :
      (p : PendingWithdrawal)
      → s.pending ≡ some p
      → is_waiting service p ≡ true
      → execute_full_exit service trigger s ≡ (waiting_result p simulation, none, s)
  unfolding execute_simulated
  waiting_reports p pending w = execute_full_exit-simulated ∙ rw (pending, execute_simulated, w)

  -- The submission with the nonce `n` and the given fees, for an exit that is built and signed.
  abbrev pub submission_of : ℕ → FeeCaps → TxCandidate → SignedTx → Submission
  submission_of n fees candidate signed = record {
    nonce = n;
    fee_caps = fees;
    tx =
        build_dynamic_fee_tx candidate ready.chain_id n
          (buffered_gas simulation.gas_units service.gas_limit_buffer_bps) fees;
    signed = signed;
  }

  -- The exit is built and signed, the network takes the transaction, and the attempt is stored.
  pub record Accepts (n : ℕ) (fees : FeeCaps) : Type 0 where
    pub candidate : TxCandidate
    pub signed : SignedTx
    pub built : ready.adapter.build_full_exit (full_exit_request position) ≡ ok candidate
    pub signed_here :
        ready.signer.sign_transaction (submission_of n fees candidate signed).tx ready.chain_id
        ≡ ok signed
    pub sent : ready.submitter.send_transaction signed ≡ none
    pub stored :
        ready.repository.insert_withdrawal_attempt (
          attempt_of service trigger
            (submitted_result (submission_of n fees candidate signed) simulation)
            simulation
            "")
        ≡ none

  -- The result, no error, and the state with the transaction handed out, pending and stored.
  abbrev pub submitted_outcome : Submission → Outcome
  submitted_outcome sub = (
    submitted_result sub simulation,
    none,
    record (pend service trigger s sub) {
      stored =
          s.stored
          ++ (attempt_of service trigger (submitted_result sub simulation) simulation "" ∷ []);
    },
  )

  execute_submission-submits :
      (n : ℕ) (fees : FeeCaps) (acc : Accepts n fees)
      → nonce_and_fee_caps service ready.submitter position.owner s.pending ≡ ok (n, fees)
      → execute_submission service ready trigger position.owner
          (full_exit_request position)
          simulation
          s
        ≡ submitted_outcome (submission_of n fees acc.candidate acc.signed)
  unfolding execute_submission prepare_submission submit
  execute_submission-submits n fees acc chosen =
      rw (acc.built, execute_submission, prepare_submission, chosen, acc.signed_here)
        (rw (acc.sent, submit, record_attempt-stored ready.repository _ _ acc.stored))

  abbrev at_pending : Option PendingWithdrawal → Outcome
  at_pending pending =
      execute_simulated service ready trigger position.owner (full_exit_request position) simulation
        pending s

  -- With nothing pending, positive caps with a tip cap of at most the fee cap, positive suggestions
  -- of the network, and an exit that is built, signed, sent and stored, the execution submits: the
  -- transaction has the network's nonce, the tip min(tip cap, suggested tip), the fee
  -- min(fee cap, suggested price + that tip) and the buffered gas, and is pending from now on.
  pub first_exit_submits :
      (n bps fee_cap tip_cap price tip : ℕ)
      → s.pending ≡ none
      → service.gas_policy ≡ capped_policy bps fee_cap tip_cap
      → 0 < tip_cap
      → tip_cap ≤ fee_cap
      → ready.submitter.pending_nonce_at position.owner ≡ ok n
      → ready.submitter.suggest_gas_price ≡ ok (some (pos price))
      → ready.submitter.suggest_gas_tip_cap ≡ ok (some (pos tip))
      → 0 < price
      → 0 < tip
      → (acc : Accepts n (caps (min fee_cap (price + min tip_cap tip)) (min tip_cap tip)))
      → execute_full_exit service trigger s
        ≡ submitted_outcome (
            submission_of n
              (caps (min fee_cap (price + min tip_cap tip)) (min tip_cap tip))
              acc.candidate
              acc.signed)
  unfolding execute_simulated nonce_and_fee_caps
  first_exit_submits n bps fee_cap tip_cap price tip idle policy hc hf hn hp ht p0 t0 acc =
      execute_full_exit-simulated
      ∙ ap at_pending idle
      ∙ (execute_submission-submits n _ acc (
          rw (
            idle,
            nonce_and_fee_caps,
            hn,
            initial_fee_caps_total service ready.submitter bps fee_cap tip_cap price tip policy hc
                hf hp ht p0 t0,
          )))

  -- Once the replacement timeout has passed, with a bump of at most 10000 basis points, positive
  -- caps with a tip cap of at most the fee cap, a pending withdrawal with 0 < tip ≤ fee, and an
  -- exit that is built, signed, sent and stored, the execution submits a replacement: the same
  -- nonce, and each fee raised by the bump up to its cap.
  pub replacement_submits :
      (p : PendingWithdrawal) (bps fee_cap tip_cap fee tip : ℕ)
      → s.pending ≡ some p
      → is_waiting service p ≡ false
      → p.fee_caps ≡ caps fee tip
      → service.gas_policy ≡ capped_policy bps fee_cap tip_cap
      → bps ≤ 10000
      → 0 < tip_cap
      → tip_cap ≤ fee_cap
      → 0 < tip
      → tip ≤ fee
      → (acc : Accepts p.nonce (raised_caps bps fee_cap tip_cap fee tip))
      → execute_full_exit service trigger s
        ≡ submitted_outcome (
            submission_of p.nonce
              (raised_caps bps fee_cap tip_cap fee tip)
              acc.candidate
              acc.signed)
  unfolding execute_simulated nonce_and_fee_caps
  replacement_submits p bps fee_cap tip_cap fee tip pending free fees policy hb hc hf ht hl acc =
      execute_full_exit-simulated
      ∙ ap at_pending pending
      ∙ rw free (
          execute_submission-submits p.nonce _ acc (
            rw (
              pending,
              nonce_and_fee_caps,
              is_due-not-is_waiting service p,
              free,
              policy,
              fees,
              (bump_checked_total bps fee_cap tip_cap fee tip hb hc hf ht hl).0,
            )))
