-- ===== src/Tests/Signing.antt =====
-- internal/signer and the dry run of internal/withdraw/service.go in the small world.
use withdraw_bot.Prelude.{ℤ, pos, some, ◌≡◌, refl, sym, ap}
use withdraw_bot.Errors.{ok}
use withdraw_bot.Ethereum.{
  SignedTx, read, rpc_clients, present, first_answer, call_contract, estimate_gas,
}
use withdraw_bot.Vault.Client.{balance_of, call, uint256_output, preview_redeem, pack_redeem}
use withdraw_bot.Adapter.{
  validate_vault_client, validate_full_exit_request, position, build_full_exit, simulate_full_exit,
}
use withdraw_bot.Withdraw.Attempts.{full_exit_request}
use withdraw_bot.Signer.{SignTx, PrivateKeyService, private_key_signer}
use withdraw_bot.Signer.Keys.{KeepsTx}
use withdraw_bot.Withdraw.Execute.{dry_run_full_exit}
use withdraw_bot.Withdraw.Attempts.{no_result, status_for_simulation}
use withdraw_bot.Withdraw.Types.{WithdrawalResult, WithdrawalStatus, Service}
use withdraw_bot.Withdraw.Outcomes.{Exit, simulated}
use withdraw_bot.Tests.World.{service_at}
use withdraw_bot.Tests.Position.{is_configured, is_positioned, ok-inj, ready, snapshot}

abbrev pub sign_tx : SignTx
sign_tx tx chain_id key = ok (record { tx = tx; hash = tx.nonce })

abbrev pub keys : PrivateKeyService
keys = record { key = 3; address = 21 }

-- The service with the private key service as its signer.
abbrev pub keyed_service : Service
keyed_service = record (service_at (pos 1000)) { signer = some (private_key_signer sign_tx keys) }

pub keeps : KeepsTx sign_tx
keeps tx chain_id key signed h = ap (λ (t : SignedTx). t.tx) (sym (ok-inj h))

abbrev pub exit_at : (now : ℤ) → Exit (service_at now)
exit_at now = record {
  ready = ready;
  position = snapshot;
  shares = 699;
  configured = is_configured now;
  positioned = is_positioned;
  has_shares = refl;
  owned = refl;
}

abbrev pub dry_result : WithdrawalResult
dry_result = record no_result {
  status = WithdrawalStatus.simulated;
  gas_units = 50000;
  expected_asset_units = some (pos 700);
}

pub is_dry : dry_run_full_exit (service_at (pos 1000)) ≡ ok dry_result
unfolding dry_run_full_exit status_for_simulation position balance_of simulate_full_exit
    build_full_exit validate_full_exit_request validate_vault_client pack_redeem full_exit_request
    preview_redeem call uint256_output call_contract read rpc_clients present first_answer
    estimate_gas
is_dry = refl
