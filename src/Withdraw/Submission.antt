-- ===== src/Withdraw/Submission.antt =====
-- internal/withdraw/service.go: the configuration of an execution, and the submission of its
-- transaction.
use withdraw_bot.Prelude.{ℕ, ℤ, String, false, Option, none, some, [], ◌∷◌, ◌++◌}
use withdraw_bot.Errors.{Error, Result, ok, err, ◌>>=◌, map_err}
use withdraw_bot.Core.{Address, FullExitRequest, FullExitSimulation}
use withdraw_bot.Gas.{FeeCaps}
use withdraw_bot.Ethereum.{DynamicFeeTx, SignedTx}
use withdraw_bot.Withdraw.Types.{
  WithdrawalStatus, WithdrawalTrigger, WithdrawalResult, Adapter, Signer, TransactionSubmitter,
  AttemptRepository, PendingWithdrawal, Service, State,
}
use withdraw_bot.Withdraw.Fees.{nonce_and_fee_caps, buffered_gas, build_dynamic_fee_tx}
use withdraw_bot.Withdraw.Attempts.{Outcome, attempt_of, fail, record_attempt}

-- The fields of the service that are not nil once its configuration is valid.
pub record Ready : Type 0 where
  pub adapter : Adapter
  pub signer : Signer
  pub submitter : TransactionSubmitter
  pub repository : AttemptRepository
  pub chain_id : ℤ

abbrev pub required {ℓ} : {A : Type ℓ} → Option A → String → Result A
required none text = err (Error.message text)
required (some a) text = ok a

unfoldable pub validate_execute_config : Service → Result Ready
validate_execute_config service = do
  adapter ← required service.adapter "withdraw adapter is required"
  signer ← required service.signer "withdraw signer is required"
  submitter ← required service.submitter "withdraw submitter is required"
  repository ← required service.repository "withdraw repository is required"
  chain_id ← required service.chain_id "chain ID is required"
  ok (record {
    adapter = adapter;
    signer = signer;
    submitter = submitter;
    repository = repository;
    chain_id = chain_id;
  })

-- A transaction that is signed and ready to be sent.
pub record Submission : Type 0 where
  pub nonce : ℕ
  pub fee_caps : FeeCaps
  pub tx : DynamicFeeTx
  pub signed : SignedTx

-- Build the exit, choose nonce and fees, and sign.
unfoldable pub prepare_submission :
    Service
    → Ready
    → Option PendingWithdrawal
    → Address
    → FullExitRequest
    → FullExitSimulation
    → Result Submission
prepare_submission service ready pending signer_address request simulation = do
  candidate ← ready.adapter.build_full_exit request
  chosen ← nonce_and_fee_caps service ready.submitter signer_address pending
  let gas = buffered_gas simulation.gas_units service.gas_limit_buffer_bps
  let tx = build_dynamic_fee_tx candidate ready.chain_id chosen.0 gas chosen.1
  signed ←
      map_err (Error.wrapped "sign full-exit transaction")
        (ready.signer.sign_transaction tx ready.chain_id)
  ok (record { nonce = chosen.0; fee_caps = chosen.1; tx = tx; signed = signed })

abbrev pub submitted_result : Submission → FullExitSimulation → WithdrawalResult
submitted_result sub simulation = record {
  status = WithdrawalStatus.submitted;
  noop = false;
  tx_hash = sub.signed.hash;
  nonce = sub.nonce;
  gas_units = sub.tx.gas;
  fee_caps = sub.fee_caps;
  expected_asset_units = simulation.expected_asset_units;
}

abbrev pub pending_of : Service → Submission → PendingWithdrawal
pending_of service sub = record {
  nonce = sub.nonce;
  fee_caps = sub.fee_caps;
  submitted_at = service.now;
  tx_hash = sub.signed.hash;
}

-- Send the transaction; then remember it as pending and store the attempt.
unfoldable pub submit :
    Service → Ready → WithdrawalTrigger → FullExitSimulation → Submission → State → Outcome
submit service ready trigger simulation sub s =
    let sent = record s { handed = s.handed ++ (sub.signed ∷ []) } in
    elim (ready.submitter.send_transaction sub.signed) [
      | some e ↦ fail (Error.wrapped "submit full-exit transaction" e) sent
      | none ↦
          let result = submitted_result sub simulation in
          let (e, s') =
            record_attempt ready.repository (attempt_of service trigger result simulation "")
              (record sent { pending = some (pending_of service sub) }) in
          (result, e, s')
    ]

unfoldable pub execute_submission :
    Service
    → Ready
    → WithdrawalTrigger
    → Address
    → FullExitRequest
    → FullExitSimulation
    → State
    → Outcome
execute_submission service ready trigger signer_address request simulation s =
    elim (prepare_submission service ready s.pending signer_address request simulation) [
      | err e ↦ fail e s
      | ok sub ↦ submit service ready trigger simulation sub s
    ]
