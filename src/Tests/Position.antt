-- ===== src/Tests/Position.antt =====
-- internal/withdraw: the position, the exit and its simulation in the small world.
use withdraw_bot.Prelude.{ℤ, pos, true, false, some, [], ◌∷◌, ◌≡◌, refl, sym, ap, ◌∙◌, subst}
use withdraw_bot.Errors.{ok}
use withdraw_bot.Core.{PositionSnapshot, FullExitSimulation, TxCandidate}
use withdraw_bot.Ethereum.{
  SignedTx, read, rpc_clients, present, first_answer, call_contract, estimate_gas,
}
use withdraw_bot.Vault.Client.{balance_of, call, uint256_output, preview_redeem, pack_redeem}
use withdraw_bot.Adapter.{
  validate_vault_client, validate_full_exit_request, position, build_full_exit, simulate_full_exit,
  morpho_adapter, with_error,
}
use withdraw_bot.Withdraw.Submission.{Ready, validate_execute_config}
use withdraw_bot.Withdraw.Attempts.{full_exit_request, has_no_shares}
use withdraw_bot.Withdraw.Sequences.{SignsGiven, FindsShares}
use withdraw_bot.Withdraw.Liveness.{Reachable}
use withdraw_bot.Tests.World.{codec, vault_adapter, owner_signer, network, attempts, service_at}

abbrev pub ready : Ready
ready = record {
  adapter = morpho_adapter codec vault_adapter;
  signer = owner_signer;
  submitter = network;
  repository = attempts;
  chain_id = pos 1;
}

abbrev pub snapshot : PositionSnapshot
snapshot = record {
  vault = 17;
  owner = 21;
  receiver = 22;
  share_balance = some (pos 700);
  asset_symbol = "USDC";
  asset_decimals = 6;
  observed_at = pos 1000;
}

abbrev pub simulation : FullExitSimulation
simulation = record {
  success = true;
  expected_asset_units = some (pos 700);
  gas_units = 50000;
  revert_reason = "";
}

abbrev pub candidate : TxCandidate
candidate = record { to = 17; payload = 3 ∷ []; value = some (pos 0) }

pub is_configured : (now : ℤ) → validate_execute_config (service_at now) ≡ ok ready
unfolding validate_execute_config
is_configured now = refl

pub is_positioned : position codec vault_adapter ≡ ok snapshot
unfolding position validate_vault_client balance_of call uint256_output call_contract read
    rpc_clients present first_answer
is_positioned = refl

pub is_built : build_full_exit codec vault_adapter (full_exit_request snapshot) ≡ ok candidate
unfolding build_full_exit validate_full_exit_request validate_vault_client pack_redeem
    full_exit_request
is_built = refl

pub simulation_given :
    simulate_full_exit codec vault_adapter (full_exit_request snapshot) ≡ ok simulation
unfolding simulate_full_exit build_full_exit validate_full_exit_request validate_vault_client
    pack_redeem full_exit_request preview_redeem call uint256_output call_contract read rpc_clients
    present first_answer estimate_gas
simulation_given = refl

pub some-inj : {A : Type 0} {a b : A} → some a ≡ some b → a ≡ b
some-inj h = cc

pub ok-inj : {A : Type 0} {a b : A} → ok a ≡ ok b → a ≡ b
ok-inj h = cc

pub signs : (now : ℤ) → SignsGiven (service_at now)
signs now signer tx chain_id signed e h =
    let given : owner_signer.sign_transaction tx chain_id ≡ ok signed =
      subst (λ s. s.sign_transaction tx chain_id ≡ ok signed) (sym (some-inj e)) h in
    ap (λ (t : SignedTx). t.tx) (sym (ok-inj given))

pub finds : (now : ℤ) → FindsShares (service_at now)
finds now adapter found e h =
    let given : position codec vault_adapter ≡ ok found =
      subst (λ a. a.position ≡ ok found) (sym (some-inj e)) h in
    subst (λ p. has_no_shares p.share_balance ≡ false) (ok-inj (sym is_positioned ∙ given)) refl

abbrev pub reachable : (now : ℤ) → Reachable (service_at now)
reachable now = record {
  ready = ready;
  position = snapshot;
  shares = 699;
  simulation = simulation;
  configured = is_configured now;
  positioned = is_positioned;
  has_shares = refl;
  owned = refl;
  simulated = ap with_error simulation_given;
  succeeded = refl;
}
