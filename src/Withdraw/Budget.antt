-- ===== src/Withdraw/Budget.antt =====
-- internal/withdraw/service.go with gas.go: what the transactions that leave the bot may cost.
use withdraw_bot.Prelude.{
  ℕ, ℤ, true, false, not, Option, none, some, [], ◌∷◌, ◌++◌, ◌+ℤ◌, ◌≡◌, ◌⊎◌, inl, inr, refl, sym,
  ap, ◌∙◌, subst,
}
use withdraw_bot.Errors.{Error, ok, map_err, >>=-eq-ok, >>-eq-ok, ok_inj, ◌>>=◌, ◌>>◌}
use withdraw_bot.Core.{Address}
use withdraw_bot.Ethereum.{SignedTx, DynamicFeeTx}
use withdraw_bot.Gas.{FeeCaps, GasPolicy, bump_checked, cap_big, validate, validate_caps}
use withdraw_bot.Gas.Bump.{IsWithin, cap_big-IsWithin, bump_checked_sound}
use withdraw_bot.Withdraw.Types.{
  Service, State, PendingWithdrawal, TransactionSubmitter, WithdrawalTrigger,
}
use withdraw_bot.Withdraw.Fees.{
  initial_fee_caps, nonce_and_fee_caps, require_positive, is_due, is_waiting, build_dynamic_fee_tx,
}
use withdraw_bot.Withdraw.Attempts.{full_exit_request}
use withdraw_bot.Withdraw.Execute.{execute_full_exit}
use withdraw_bot.Withdraw.Outcomes.{Cleared, simulated}
use withdraw_bot.Withdraw.Preparation.{prepare_submission-Prepared}
use withdraw_bot.Withdraw.Pricing.{is_due-not-is_waiting}
use withdraw_bot.Withdraw.Safety.{hands_only-Cleared}
use withdraw_bot.Withdraw.Sequences.{SignsGiven, configured_parts}

-- Both fees are at most their caps.
abbrev pub IsCapped : GasPolicy → Option ℤ → Option ℤ → Type 0
IsCapped policy fee tip = IsWithin fee policy.max_fee_cap × IsWithin tip policy.max_tip_cap

initial_fee_caps-IsCapped :
    (service : Service) (submitter : TransactionSubmitter) (fees : FeeCaps)
    → initial_fee_caps service submitter ≡ ok fees
    → IsCapped service.gas_policy fees.max_fee_per_gas fees.max_priority_fee_per_gas
unfolding initial_fee_caps
initial_fee_caps-IsCapped service submitter fees h =
    let priced = (>>-eq-ok (validate_caps service.gas_policy) _ h).1 in
    let (suggested, _, h1) =
      >>=-eq-ok (map_err (Error.wrapped "suggest gas price") submitter.suggest_gas_price) _
        priced in
    let (price, _, h2) =
      >>=-eq-ok (require_positive suggested "suggested gas price must be positive") _ h1 in
    let (suggested_tip, _, h3) =
      >>=-eq-ok (map_err (Error.wrapped "suggest gas tip cap") submitter.suggest_gas_tip_cap) _
        h2 in
    let (tip, _, h4) =
      >>=-eq-ok (require_positive suggested_tip "suggested gas tip cap must be positive") _ h3 in
    last (price +ℤ cap_big tip service.gas_policy.max_tip_cap) tip h4
  where
    last :
        (fee tip : ℤ)
        → (let k : FeeCaps = record {
          max_fee_per_gas = some (cap_big fee service.gas_policy.max_fee_cap);
          max_priority_fee_per_gas = some (cap_big tip service.gas_policy.max_tip_cap);
        } in
            validate k >> ok k)
          ≡ ok fees
        → IsCapped service.gas_policy fees.max_fee_per_gas fees.max_priority_fee_per_gas
    last fee tip h =
        let k : FeeCaps = record {
          max_fee_per_gas = some (cap_big fee service.gas_policy.max_fee_cap);
          max_priority_fee_per_gas = some (cap_big tip service.gas_policy.max_tip_cap);
        } in
        subst
          (λ (f : FeeCaps).
            IsCapped service.gas_policy f.max_fee_per_gas f.max_priority_fee_per_gas)
          (ok_inj (>>-eq-ok (validate k) (ok k) h).1)
          (
            cap_big-IsWithin fee service.gas_policy.max_fee_cap,
            cap_big-IsWithin tip service.gas_policy.max_tip_cap,
          )

-- The fees of a submission: the first ones, or raised ones where the pending submission is due.
nonce_and_fee_caps-IsCapped :
    (service : Service) (submitter : TransactionSubmitter) (a : Address)
    (pending : Option PendingWithdrawal) (nonce : ℕ) (fees : FeeCaps)
    → ((p : PendingWithdrawal) → pending ≡ some p → is_waiting service p ≡ false)
    → nonce_and_fee_caps service submitter a pending ≡ ok (nonce, fees)
    → IsCapped service.gas_policy fees.max_fee_per_gas fees.max_priority_fee_per_gas
unfolding nonce_and_fee_caps
nonce_and_fee_caps-IsCapped service submitter a none nonce fees free h =
    let (n, _, h1) =
      >>=-eq-ok (map_err (Error.wrapped "read pending nonce") (submitter.pending_nonce_at a)) _ h in
    let (f, first, h2) = >>=-eq-ok (initial_fee_caps service submitter) _ h1 in
    let e : f ≡ fees = cc h2 in initial_fee_caps-IsCapped service submitter fees (rw (← e) first)
nonce_and_fee_caps-IsCapped service submitter a (some p) nonce fees free h =
    let due : is_due service p ≡ true = is_due-not-is_waiting service p ∙ ap not (free p refl) in
    let h1 : (bump_checked service.gas_policy p.fee_caps >>= λ f. ok (p.nonce, f))
        ≡ ok (nonce, fees) =
      rw due at h in
    let (f, bumped, h2) = >>=-eq-ok (bump_checked service.gas_policy p.fee_caps) _ h1 in
    let e : f ≡ fees = cc h2 in
    let sound = bump_checked_sound service.gas_policy p.fee_caps fees (rw (← e) bumped) in
    (sound.1, sound.2)

tx-IsCapped :
    (service : Service) (s : State) (c : Cleared service s)
    → SignsGiven service
    → IsCapped service.gas_policy c.sub.signed.tx.gas_fee_cap c.sub.signed.tx.gas_tip_cap
unfolding build_dynamic_fee_tx
tx-IsCapped service s c signs =
    let prep =
      prepare_submission-Prepared service c.exit.ready s.pending c.exit.position.owner
        (full_exit_request c.exit.position) (simulated c.exit).0 c.sub c.prepared in
    let made =
      signs c.exit.ready.signer c.sub.tx c.exit.ready.chain_id c.sub.signed
        (configured_parts service c.exit.ready c.exit.configured).1 prep.signed_here
      ∙ prep.composed in
    subst (λ (t : DynamicFeeTx). IsCapped service.gas_policy t.gas_fee_cap t.gas_tip_cap) (sym made)
      (nonce_and_fee_caps-IsCapped service c.exit.ready.submitter c.exit.position.owner s.pending
        c.sub.nonce c.sub.fee_caps c.free prep.chosen)

-- Of a service whose signer signs what it is given: an execution hands out no transaction, or exactly
-- one, and the fees of that one, also of a replacement with raised fees, are at most the caps of
-- the gas policy.
pub hands_only-IsCapped :
    (service : Service) (trigger : WithdrawalTrigger) (s : State)
    → SignsGiven service
    → let s' = (execute_full_exit service trigger s).2 in
      (s'.handed ≡ s.handed)
      ⊎ ((signed : SignedTx) × (s'.handed ≡ s.handed ++ (signed ∷ []))
          × IsCapped service.gas_policy signed.tx.gas_fee_cap signed.tx.gas_tip_cap)
hands_only-IsCapped service trigger s signs = elim (hands_only-Cleared service trigger s) [
  | inl same ↦ inl same
  | inr (c, handed) ↦ inr (c.sub.signed, handed, tx-IsCapped service s c signs)
]
