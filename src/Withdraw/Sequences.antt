-- ===== src/Withdraw/Sequences.antt =====
-- internal/withdraw/service.go: what stays true of the pending withdrawal over any sequence of
-- executions, each with its own answers from the environment.
use withdraw_bot.Prelude.{
  ℕ, ℤ, false, some, List, [], ◌∷◌, ◌++◌, ◌≡◌, refl, arith, All, All-append, subst, ap, sym, ◌∙◌,
  append-nil, append_assoc, true≢false,
}
use withdraw_bot.Errors.{ok}
use withdraw_bot.Core.{PositionSnapshot}
use withdraw_bot.Gas.Bump.{IsPayable}
use withdraw_bot.Ethereum.{DynamicFeeTx, SignedTx}
use withdraw_bot.Withdraw.Types.{
  WithdrawalTrigger, Signer, Adapter, PendingWithdrawal, Service, State,
}
use withdraw_bot.Withdraw.Fees.{build_dynamic_fee_tx}
use withdraw_bot.Withdraw.Attempts.{Outcome, full_exit_request, has_no_shares}
use withdraw_bot.Withdraw.Submission.{Ready, validate_execute_config, pending_of}
use withdraw_bot.Withdraw.Execute.{execute_full_exit}
use withdraw_bot.Withdraw.Pricing.{
  HasPayable, nonce_and_fee_caps-IsPayable, nonce_and_fee_caps_reuses,
}
use withdraw_bot.Withdraw.Outcomes.{
  simulated, Cleared, Run, refused, empty, unsimulated, waiting, rejected, submitted, unrecorded,
}
use withdraw_bot.Withdraw.Preparation.{prepare_submission-Prepared}
use withdraw_bot.Withdraw.Runs.{execute_full_exit-Run}

-- The state after a sequence of executions; each has the service as its environment then was.
abbrev pub after : List (Service × WithdrawalTrigger) → State → State
after [] s = s
after ((service, trigger) ∷ rest) s = after rest (execute_full_exit service trigger s).2

Cleared-IsPayable :
    (service : Service) (s : State) (c : Cleared service s)
    → HasPayable s.pending
    → IsPayable c.sub.fee_caps
Cleared-IsPayable service s c payable =
    nonce_and_fee_caps-IsPayable service c.exit.ready.submitter c.exit.position.owner s.pending
      c.sub.nonce c.sub.fee_caps payable
      (prepare_submission-Prepared service c.exit.ready s.pending c.exit.position.owner
        (full_exit_request c.exit.position) (simulated c.exit).0 c.sub c.prepared).chosen

execute_full_exit-HasPayable :
    (service : Service) (trigger : WithdrawalTrigger) (s : State)
    → HasPayable s.pending
    → HasPayable (execute_full_exit service trigger s).2.pending
execute_full_exit-HasPayable service trigger s payable =
    by_run (execute_full_exit service trigger s) (execute_full_exit-Run service trigger s)
  where
    by_run : (o : Outcome) → Run service trigger s o → HasPayable o.2.pending
    by_run o (refused e h) = rw h payable
    by_run o (empty r p _ _ _ h) = rw h tt
    by_run o (unsimulated x _ h) = rw h payable
    by_run o (waiting x p _ _ _ h) = rw h payable
    by_run o (rejected c e _ h) = rw h payable
    by_run o (submitted c _ h) = rw h (Cleared-IsPayable service s c payable)
    by_run o (unrecorded c e _ h) = rw h (Cleared-IsPayable service s c payable)

-- Over any sequence of executions: if the pending withdrawal has payable fees (or nothing is
-- pending) at the start, so it is at the end. So a replacement always has fees to raise.
pub after-HasPayable :
    (es : List (Service × WithdrawalTrigger)) (s : State)
    → HasPayable s.pending
    → HasPayable (after es s).pending
after-HasPayable [] s payable = payable
after-HasPayable ((service, trigger) ∷ rest) s payable =
    after-HasPayable rest (execute_full_exit service trigger s).2
      (execute_full_exit-HasPayable service trigger s payable)

-- The signer signs the transaction that it is given.
abbrev pub SignsGiven : Service → Type 0
SignsGiven service =
    (signer : Signer) (tx : DynamicFeeTx) (chain_id : ℤ) (signed : SignedTx)
    → service.signer ≡ some signer
    → signer.sign_transaction tx chain_id ≡ ok signed
    → signed.tx ≡ tx

-- The position that the execution reads has shares left.
abbrev pub FindsShares : Service → Type 0
FindsShares service =
    (adapter : Adapter) (position : PositionSnapshot)
    → service.adapter ≡ some adapter
    → adapter.position ≡ ok position
    → has_no_shares position.share_balance ≡ false

-- `s'` has handed out nothing since `s` but transactions with the nonce `n`, which is pending.
pub record OnNonce (n : ℕ) (s s' : State) : Type 0 where
  pub added : List SignedTx
  pub handed_on : s'.handed ≡ s.handed ++ added
  pub same_nonce : All (λ (t : SignedTx). t.tx.nonce ≡ n) added
  pub still : PendingWithdrawal
  pub still_pending : s'.pending ≡ some still
  pub still_nonce : still.nonce ≡ n

pub configured_parts :
    (service : Service) (ready : Ready)
    → validate_execute_config service ≡ ok ready
    → (service.adapter ≡ some ready.adapter) × (service.signer ≡ some ready.signer)
unfolding validate_execute_config
configured_parts service ready h = ground arith

OnNonce-same :
    {n : ℕ} {s : State} (p : PendingWithdrawal) (s' : State)
    → s'.handed ≡ s.handed
    → s'.pending ≡ some p
    → p.nonce ≡ n
    → OnNonce n s s'
OnNonce-same p s' same pending e = record {
  added = [];
  handed_on = same ∙ sym (append-nil _);
  same_nonce = tt;
  still = p;
  still_pending = pending;
  still_nonce = e;
}

OnNonce-hands :
    {n : ℕ} {s : State} (p : PendingWithdrawal) (signed : SignedTx) (s' : State)
    → s'.handed ≡ s.handed ++ (signed ∷ [])
    → signed.tx.nonce ≡ n
    → s'.pending ≡ some p
    → p.nonce ≡ n
    → OnNonce n s s'
OnNonce-hands p signed s' more on pending e = record {
  added = signed ∷ [];
  handed_on = more;
  same_nonce = (on, tt);
  still = p;
  still_pending = pending;
  still_nonce = e;
}

OnNonce-trans : (n : ℕ) (s t u : State) → OnNonce n s t → OnNonce n t u → OnNonce n s u
OnNonce-trans n s t u a b = record {
  added = a.added ++ b.added;
  handed_on =
      b.handed_on ∙ ap (λ l. l ++ b.added) a.handed_on ∙ append_assoc s.handed a.added b.added;
  same_nonce = All-append _ a.added b.added a.same_nonce b.same_nonce;
  still = b.still;
  still_pending = b.still_pending;
  still_nonce = b.still_nonce;
}

module _ (service : Service) (s : State) (p : PendingWithdrawal) (pending : s.pending ≡ some p)
    (c : Cleared service s) where
  Cleared-nonce : c.sub.nonce ≡ p.nonce
  Cleared-nonce =
      nonce_and_fee_caps_reuses service c.exit.ready.submitter c.exit.position.owner p c.sub.nonce
        c.sub.fee_caps
        (rw pending at
          (prepare_submission-Prepared service c.exit.ready s.pending c.exit.position.owner
            (full_exit_request c.exit.position) (simulated c.exit).0 c.sub c.prepared).chosen)

  Cleared-signed_nonce : SignsGiven service → c.sub.signed.tx.nonce ≡ p.nonce
  unfolding build_dynamic_fee_tx
  Cleared-signed_nonce signs =
      let prep =
        prepare_submission-Prepared service c.exit.ready s.pending c.exit.position.owner
          (full_exit_request c.exit.position) (simulated c.exit).0 c.sub c.prepared in
      ap (λ t. t.nonce)
        (signs c.exit.ready.signer c.sub.tx c.exit.ready.chain_id c.sub.signed
          (configured_parts service c.exit.ready c.exit.configured).1 prep.signed_here)
      ∙ ap (λ t. t.nonce) prep.composed
      ∙ Cleared-nonce

execute_full_exit-OnNonce :
    (service : Service) (trigger : WithdrawalTrigger) (s : State) (p : PendingWithdrawal)
    → s.pending ≡ some p
    → SignsGiven service
    → FindsShares service
    → OnNonce p.nonce s (execute_full_exit service trigger s).2
execute_full_exit-OnNonce service trigger s p pending signs finds =
    by_run (execute_full_exit service trigger s) (execute_full_exit-Run service trigger s)
  where
    by_run : (o : Outcome) → Run service trigger s o → OnNonce p.nonce s o.2
    by_run o (refused e h) = OnNonce-same p o.2 (rw h) (rw h pending) refl
    by_run o (empty ready position configured positioned no_shares h) =
        let found =
          finds ready.adapter position (configured_parts service ready configured).0 positioned in
        absurd (true≢false (sym no_shares ∙ found))
    by_run o (unsimulated x _ h) = OnNonce-same p o.2 (rw h) (rw h pending) refl
    by_run o (waiting x q _ _ _ h) = OnNonce-same p o.2 (rw h) (rw h pending) refl
    by_run o (rejected c e _ h) =
        OnNonce-hands p c.sub.signed o.2 (rw h) (Cleared-signed_nonce service s p pending c signs)
          (rw h pending) refl
    by_run o (submitted c _ h) =
        OnNonce-hands (pending_of service c.sub) c.sub.signed o.2 (rw h)
          (Cleared-signed_nonce service s p pending c signs) (rw h)
          (Cleared-nonce service s p pending c)
    by_run o (unrecorded c e _ h) =
        OnNonce-hands (pending_of service c.sub) c.sub.signed o.2 (rw h)
          (Cleared-signed_nonce service s p pending c signs) (rw h)
          (Cleared-nonce service s p pending c)

-- While a withdrawal is pending and no execution finds the position empty, every transaction that
-- any sequence of executions hands out has the nonce of the pending one, so the network accepts at
-- most one of them; and that nonce stays pending. (The signer must sign what it is given.)
pub after-OnNonce :
    (es : List (Service × WithdrawalTrigger)) (s : State) (p : PendingWithdrawal)
    → s.pending ≡ some p
    → All (λ (e : Service × WithdrawalTrigger). SignsGiven e.0 × FindsShares e.0) es
    → OnNonce p.nonce s (after es s)
after-OnNonce [] s p pending each = OnNonce-same p s refl pending refl
after-OnNonce ((service, trigger) ∷ rest) s p pending each =
    let s1 = (execute_full_exit service trigger s).2 in
    let first = execute_full_exit-OnNonce service trigger s p pending each.0.0 each.0.1 in
    let later = after-OnNonce rest s1 first.still first.still_pending each.1 in
    OnNonce-trans p.nonce s s1 (after rest s1) first
      (subst (λ n. OnNonce n s1 (after rest s1)) first.still_nonce later)
