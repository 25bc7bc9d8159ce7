-- ===== src/Adapter/Exits.antt =====
-- internal/withdraw/morpho_adapter.go with service.go: the transaction that leaves the bot.
use withdraw_bot.Prelude.{
  ℕ, ℤ, pos, ◌<◌, pos_part, true, some, [], ◌∷◌, ◌++◌, ◌≡◌, refl, sym, ap, ◌∙◌, ◌⊎◌, inl, inr,
  arith, subst, ap₂,
}
use withdraw_bot.Errors.{Result, ok, err, >>=-eq-ok, >>-eq-ok}
use withdraw_bot.Core.{PositionSnapshot, FullExitRequest, TxCandidate, FullExitSimulation}
use withdraw_bot.Ethereum.{DynamicFeeTx, SignedTx, estimate_gas}
use withdraw_bot.Gas.{FeeCaps}
use withdraw_bot.Vault.Client.{Codec, balance_of, preview_redeem, pack_redeem}
use withdraw_bot.Withdraw.Types.{Adapter, Service, State, WithdrawalTrigger}
use withdraw_bot.Withdraw.Fees.{or_zero, buffered_gas, build_dynamic_fee_tx}
use withdraw_bot.Withdraw.Attempts.{full_exit_request}
use withdraw_bot.Withdraw.Execute.{execute_full_exit}
use withdraw_bot.Withdraw.Outcomes.{Cleared, simulated}
use withdraw_bot.Withdraw.Preparation.{prepare_submission-Prepared}
use withdraw_bot.Withdraw.Sequences.{SignsGiven, configured_parts}
use withdraw_bot.Withdraw.Safety.{hands_only-Cleared}
use withdraw_bot.Adapter.{
  MorphoAdapter, validate_vault_client, validate_full_exit_request, position, build_full_exit,
  exit_call, simulate_full_exit, morpho_adapter, simulation_of,
}
use withdraw_bot.Adapter.Requests.{IsServable, validate_full_exit_request-IsServable}

module _ (codec : Codec) (adapter : MorphoAdapter) where
  -- The adapter's candidate for a request: a call of its vault, with no value, that redeems the
  -- request's shares from its owner to its receiver.
  pub record IsRedeem (request : FullExitRequest) (candidate : TxCandidate) : Type 0 where
    pub shares : ℤ
    pub servable : IsServable adapter request shares
    pub packed : pack_redeem codec shares request.receiver request.owner ≡ ok candidate.payload
    pub to_vault : candidate.to ≡ adapter.vault
    pub no_value : candidate.value ≡ some (pos 0)

  build_full_exit-IsRedeem :
      (request : FullExitRequest) (candidate : TxCandidate)
      → build_full_exit codec adapter request ≡ ok candidate
      → IsRedeem request candidate
  unfolding build_full_exit
  build_full_exit-IsRedeem request candidate h =
      let (shares, valid, h1) = >>=-eq-ok (validate_full_exit_request adapter request) _ h in
      let (payload, packed, h2) =
        >>=-eq-ok (pack_redeem codec shares request.receiver request.owner) _ h1 in
      let built : record { to = request.vault; payload = payload; value = some (pos 0) }
          ≡ candidate =
        cc h2 in
      let servable = (validate_full_exit_request-IsServable adapter request shares).0 valid in
      subst (IsRedeem request) built (record {
        shares = shares;
        servable = servable;
        packed = packed;
        to_vault = servable.same_vault;
        no_value = refl;
      })

  -- A simulation that succeeds is an estimate of the gas of exactly the call that the adapter
  -- builds for the same request.
  simulated_is_built :
      (request : FullExitRequest) (simulation : FullExitSimulation)
      → simulate_full_exit codec adapter request ≡ ok simulation
      → simulation.success ≡ true
      → (candidate : TxCandidate) × (build_full_exit codec adapter request ≡ ok candidate)
        × (estimate_gas adapter.ethereum (exit_call request candidate) ≡ ok simulation.gas_units)
  unfolding simulate_full_exit
  simulated_is_built request simulation h success =
      let (shares, valid, h1) = >>=-eq-ok (validate_full_exit_request adapter request) _ h in
      let (expected, preview, h2) =
        >>=-eq-ok (preview_redeem codec adapter.vault_client shares) _ h1 in
      let (candidate, built, h3) = >>=-eq-ok (build_full_exit codec adapter request) _ h2 in
      (
        candidate,
        built,
        estimated expected (estimate_gas adapter.ethereum (exit_call request candidate)) (cc h3),
      )
    where
      estimated :
          (expected : ℤ) (gas : Result ℕ)
          → simulation_of expected gas ≡ simulation
          → gas ≡ ok simulation.gas_units
      estimated expected (ok gas) e = ap (λ (f : FullExitSimulation). ok f.gas_units) e
      estimated expected (err x) e = absurd (ground arith)

  position-fields :
      (snapshot : PositionSnapshot)
      → position codec adapter ≡ ok snapshot
      → (shares : ℤ) × (balance_of codec adapter.vault_client adapter.owner ≡ ok shares)
        × (snapshot.share_balance ≡ some shares)
        × (snapshot.vault ≡ adapter.vault)
        × (snapshot.owner ≡ adapter.owner)
        × (snapshot.receiver ≡ adapter.receiver)
  unfolding position
  position-fields snapshot h =
      let h1 = (>>-eq-ok (validate_vault_client adapter) _ h).1 in
      let (shares, balance, h2) =
        >>=-eq-ok (balance_of codec adapter.vault_client adapter.owner) _ h1 in
      (shares, balance, ground arith, ground arith, ground arith, ground arith)

  -- A transaction that redeems the owner's whole balance of shares to the receiver.
  pub record RedeemsAll (service : Service) (signed : SignedTx) : Type 0 where
    pub shares : ℤ
    pub gas : ℕ
    pub whole_balance : balance_of codec adapter.vault_client adapter.owner ≡ ok shares
    pub some_shares : 0 < pos_part shares
    pub redeems : pack_redeem codec shares adapter.receiver adapter.owner ≡ ok signed.tx.payload
    pub to_vault : signed.tx.to ≡ adapter.vault
    pub no_value : signed.tx.value ≡ some (pos 0)
    pub gas_limit : signed.tx.gas ≡ buffered_gas gas service.gas_limit_buffer_bps

  same_shares : {a b : ℤ} → some a ≡ some b → a ≡ b
  same_shares e = cc

  -- A transaction that is composed of the candidate for the adapter's own position.
  composed-RedeemsAll :
      (service : Service) (signed : SignedTx) (snapshot : PositionSnapshot)
      (candidate : TxCandidate) (chain_id : ℤ) (nonce gas : ℕ) (fees : FeeCaps)
      → position codec adapter ≡ ok snapshot
      → build_full_exit codec adapter (full_exit_request snapshot) ≡ ok candidate
      → signed.tx
        ≡ build_dynamic_fee_tx candidate chain_id nonce
            (buffered_gas gas service.gas_limit_buffer_bps)
            fees
      → RedeemsAll service signed
  unfolding full_exit_request build_dynamic_fee_tx
  composed-RedeemsAll service signed snapshot candidate chain_id nonce gas fees at built tx =
      let (shares, balance, has, vault, owner, receiver) = position-fields snapshot at in
      let redeem = build_full_exit-IsRedeem (full_exit_request snapshot) candidate built in
      let whole : redeem.shares ≡ shares = same_shares (sym redeem.servable.shares_set ∙ has) in
      record {
        shares = redeem.shares;
        gas = gas;
        whole_balance = balance ∙ ap ok (sym whole);
        some_shares = redeem.servable.shares_positive;
        redeems =
            ap₂ (pack_redeem codec redeem.shares) (sym receiver) (sym owner)
            ∙ redeem.packed
            ∙ ap (λ (t : DynamicFeeTx). ok t.payload) (sym tx);
        to_vault = ap (λ (t : DynamicFeeTx). t.to) tx ∙ redeem.to_vault;
        no_value = ap (λ (t : DynamicFeeTx). t.value) tx ∙ ap or_zero redeem.no_value;
        gas_limit = ap (λ (t : DynamicFeeTx). t.gas) tx;
      }

  tx-RedeemsAll :
      (service : Service) (s : State) (c : Cleared service s)
      → service.adapter ≡ some (morpho_adapter codec adapter)
      → SignsGiven service
      → RedeemsAll service c.sub.signed
  tx-RedeemsAll service s c uses signs =
      let parts = configured_parts service c.exit.ready c.exit.configured in
      let same : c.exit.ready.adapter ≡ morpho_adapter codec adapter = cc (parts.0, uses) in
      let prep =
        prepare_submission-Prepared service c.exit.ready s.pending c.exit.position.owner
          (full_exit_request c.exit.position) (simulated c.exit).0 c.sub c.prepared in
      composed-RedeemsAll service c.sub.signed c.exit.position prep.candidate c.exit.ready.chain_id
        c.sub.nonce (simulated c.exit).0.gas_units c.sub.fee_caps
        (ap (λ (a : Adapter). a.position) (sym same) ∙ c.exit.positioned)
        (ap (λ (a : Adapter). a.build_full_exit (full_exit_request c.exit.position)) (sym same)
          ∙ prep.built)
        (signs c.exit.ready.signer c.sub.tx c.exit.ready.chain_id c.sub.signed parts.1
            prep.signed_here
          ∙ prep.composed)

  -- Of a service with this adapter, whose signer signs what it is given: an execution hands out no
  -- transaction, or exactly one, and that one redeems the owner's whole balance, which is positive,
  -- to the receiver, by a call of the vault with no value and with the buffered gas.
  pub exits_redeem_all :
      (service : Service) (trigger : WithdrawalTrigger) (s : State)
      → service.adapter ≡ some (morpho_adapter codec adapter)
      → SignsGiven service
      → let s' = (execute_full_exit service trigger s).2 in
        (s'.handed ≡ s.handed)
        ⊎ ((signed : SignedTx) × (s'.handed ≡ s.handed ++ (signed ∷ []))
            × RedeemsAll service signed)
  exits_redeem_all service trigger s uses signs = elim (hands_only-Cleared service trigger s) [
    | inl same ↦ inl same
    | inr (c, handed) ↦ inr (c.sub.signed, handed, tx-RedeemsAll service s c uses signs)
  ]
