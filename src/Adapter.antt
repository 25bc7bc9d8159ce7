-- ===== src/Adapter.antt =====
-- internal/withdraw/morpho_adapter.go: the adapter that builds and simulates the exit from a Morpho
-- vault.
pub mod Requests
pub mod Exits
use withdraw_bot.Prelude.{
  ℕ, ℤ, pos, String, Bool, true, false, ◌||◌, not, Option, none, some, ◌==◌, is_positive,
  if◌then◌else◌,
}
use withdraw_bot.Errors.{Error, Sentinel, Result, ok, err, ◌>>=◌, ◌>>◌, fail_if, ◌orelse◌}
use withdraw_bot.Core.{
  Address, Time, PositionSnapshot, FullExitRequest, TxCandidate, FullExitSimulation,
}
use withdraw_bot.Ethereum.{CallMsg, MultiClient, estimate_gas}
use withdraw_bot.Vault.Client.{Codec, VaultClient, balance_of, preview_redeem, pack_redeem}
use withdraw_bot.Withdraw.Types.{Adapter}
use withdraw_bot.Withdraw.Attempts.{no_simulation}

-- `now` is what the adapter's clock shows.
pub record MorphoAdapter : Type 0 where
  pub ethereum : MultiClient
  pub vault_client : VaultClient
  pub vault : Address
  pub owner : Address
  pub receiver : Address
  pub asset_symbol : String
  pub asset_decimals : ℕ
  pub now : Time

unfoldable pub validate_vault_client : MorphoAdapter → Option Error
validate_vault_client adapter =
    fail_if (adapter.vault == 0) (Error.sentinel Sentinel.zero_vault)
    orelse fail_if (not (adapter.vault_client.vault == adapter.vault))
        (Error.sentinel Sentinel.vault_client_mismatch)

-- The shares of the request, if they are set and positive.
abbrev positive_shares : Option ℤ → Result ℤ
positive_shares none = err (Error.sentinel Sentinel.invalid_shares)
positive_shares (some shares) =
    if is_positive shares then ok shares else err (Error.sentinel Sentinel.invalid_shares)

-- A request that passes gives its shares.
unfoldable pub validate_full_exit_request : MorphoAdapter → FullExitRequest → Result ℤ
validate_full_exit_request adapter request =
    (validate_vault_client adapter
      orelse fail_if (request.vault == 0) (Error.sentinel Sentinel.zero_vault)
      orelse fail_if (not (request.vault == adapter.vault))
          (Error.wrapped "request vault mismatch" (Error.sentinel Sentinel.vault_client_mismatch))
      orelse fail_if (request.owner == 0) (Error.sentinel Sentinel.zero_owner)
      orelse fail_if (request.receiver == 0) (Error.sentinel Sentinel.zero_receiver))
    >> positive_shares request.shares

-- The call that simulates a transaction: it is sent by the owner.
abbrev pub exit_call : FullExitRequest → TxCandidate → CallMsg
exit_call request candidate = record {
  sender = request.owner;
  to = candidate.to;
  value = candidate.value;
  payload = candidate.payload;
}

-- A gas estimate that fails is a simulation that failed, and no error.
abbrev pub simulation_of : ℤ → Result ℕ → FullExitSimulation
simulation_of expected (ok gas) = record {
  success = true;
  expected_asset_units = some expected;
  gas_units = gas;
  revert_reason = "";
}
simulation_of expected (err _) = record {
  success = false;
  expected_asset_units = some expected;
  gas_units = 0;
  revert_reason = "simulation failed";
}

-- `return core.FullExitSimulation{}, err`
abbrev pub with_error : Result FullExitSimulation → FullExitSimulation × Option Error
with_error (ok simulation) = (simulation, none)
with_error (err e) = (no_simulation, some e)

module _ (codec : Codec) where
  unfoldable pub position : MorphoAdapter → Result PositionSnapshot
  position adapter = validate_vault_client adapter >> (do
    shares ← balance_of codec adapter.vault_client adapter.owner
    ok (record {
      vault = adapter.vault;
      owner = adapter.owner;
      receiver = adapter.receiver;
      share_balance = some shares;
      asset_symbol = adapter.asset_symbol;
      asset_decimals = adapter.asset_decimals;
      observed_at = adapter.now;
    }))

  unfoldable pub build_full_exit : MorphoAdapter → FullExitRequest → Result TxCandidate
  build_full_exit adapter request = do
    shares ← validate_full_exit_request adapter request
    payload ← pack_redeem codec shares request.receiver request.owner
    ok (record { to = request.vault; payload = payload; value = some (pos 0) })

  unfoldable pub simulate_full_exit : MorphoAdapter → FullExitRequest → Result FullExitSimulation
  simulate_full_exit adapter request = do
    shares ← validate_full_exit_request adapter request
    expected ← preview_redeem codec adapter.vault_client shares
    candidate ← build_full_exit adapter request
    ok (simulation_of expected (estimate_gas adapter.ethereum (exit_call request candidate)))

  -- The adapter as the withdrawal service takes it.
  abbrev pub morpho_adapter : MorphoAdapter → Adapter
  morpho_adapter adapter = record {
    position = position adapter;
    build_full_exit = build_full_exit adapter;
    simulate_full_exit = λ request. with_error (simulate_full_exit adapter request);
  }
