-- ===== src/Withdraw/Preparation.antt =====
-- internal/withdraw/service.go: what a submission is prepared from.
use withdraw_bot.Prelude.{Option, ◌≡◌, refl, subst}
use withdraw_bot.Errors.{Error, ok, >>=-eq-ok, map_err, map_err-eq-ok}
use withdraw_bot.Core.{Address, FullExitRequest, FullExitSimulation, TxCandidate}
use withdraw_bot.Ethereum.{DynamicFeeTx}
use withdraw_bot.Withdraw.Types.{PendingWithdrawal, Service}
use withdraw_bot.Withdraw.Fees.{nonce_and_fee_caps, buffered_gas, build_dynamic_fee_tx}
use withdraw_bot.Withdraw.Submission.{Ready, Submission, prepare_submission}

-- What a prepared submission consists of.
pub record Prepared (service : Service) (ready : Ready) (pending : Option PendingWithdrawal)
    (a : Address) (request : FullExitRequest) (simulation : FullExitSimulation) (sub : Submission)
    : Type 0 where
  pub candidate : TxCandidate
  pub built : ready.adapter.build_full_exit request ≡ ok candidate
  pub chosen : nonce_and_fee_caps service ready.submitter a pending ≡ ok (sub.nonce, sub.fee_caps)
  pub composed :
      sub.tx
      ≡ build_dynamic_fee_tx candidate ready.chain_id sub.nonce
          (buffered_gas simulation.gas_units service.gas_limit_buffer_bps)
          sub.fee_caps
  pub signed_here : ready.signer.sign_transaction sub.tx ready.chain_id ≡ ok sub.signed

pub prepare_submission-Prepared :
    (service : Service) (ready : Ready) (pending : Option PendingWithdrawal) (a : Address)
    (request : FullExitRequest) (simulation : FullExitSimulation) (sub : Submission)
    → prepare_submission service ready pending a request simulation ≡ ok sub
    → Prepared service ready pending a request simulation sub
unfolding prepare_submission
prepare_submission-Prepared service ready pending a request simulation sub h =
    let (candidate, built, h1) = >>=-eq-ok (ready.adapter.build_full_exit request) _ h in
    let (chosen, priced, h2) =
      >>=-eq-ok (nonce_and_fee_caps service ready.submitter a pending) _ h1 in
    let tx : DynamicFeeTx =
      build_dynamic_fee_tx candidate ready.chain_id chosen.0
        (buffered_gas simulation.gas_units service.gas_limit_buffer_bps) chosen.1 in
    let (signed, s, h3) =
      >>=-eq-ok
        (map_err (Error.wrapped "sign full-exit transaction")
          (ready.signer.sign_transaction tx ready.chain_id))
        _ h2 in
    let e : record { nonce = chosen.0; fee_caps = chosen.1; tx = tx; signed = signed } ≡ sub =
      cc h3 in
    subst (Prepared service ready pending a request simulation) e (record {
      candidate = candidate;
      built = built;
      chosen = priced;
      composed = refl;
      signed_here = map_err-eq-ok (Error.wrapped "sign full-exit transaction") _ s;
    })
