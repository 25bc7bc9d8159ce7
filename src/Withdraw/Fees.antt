-- ===== src/Withdraw/Fees.antt =====
-- internal/withdraw/service.go: the nonce, the fee caps and the gas of a full-exit transaction.
use withdraw_bot.Prelude.{
  ℕ, ℤ, pos, negsuc, ◌-◌, ◌^◌, Bool, ◌&&◌, ◌||◌, not, String, Option, none, some, ◌+ℤ◌, ◌-ℤ◌, ◌*ℤ◌,
  div_ℕ, to_int64, to_uint64, ltb_ℤ, is_positive, if◌then◌else◌,
}
use withdraw_bot.Errors.{Error, Result, ok, err, ◌>>=◌, ◌>>◌, map_err}
use withdraw_bot.Core.{Address, Time, TxCandidate}
use withdraw_bot.Gas.{FeeCaps, validate_caps, validate, bump_checked, cap_big}
use withdraw_bot.Ethereum.{DynamicFeeTx}
use withdraw_bot.Withdraw.Types.{Service, TransactionSubmitter, PendingWithdrawal}

-- `now.Sub(then)`: the difference in nanoseconds, held within the range of `time.Duration`.
unfoldable pub sub_time : Time → Time → ℤ
sub_time a b =
    let d = a -ℤ b in
    if ltb_ℤ (pos (2 ^ 63 - 1)) d
    then pos (2 ^ 63 - 1)
    else if ltb_ℤ d (negsuc (2 ^ 63 - 1))
    then negsuc (2 ^ 63 - 1)
    else d

-- `gasPrice == nil || gasPrice.Sign() <= 0` is an error.
unfoldable pub require_positive : Option ℤ → String → Result ℤ
require_positive none text = err (Error.message text)
require_positive (some v) text = if is_positive v then ok v else err (Error.message text)

unfoldable pub initial_fee_caps : Service → TransactionSubmitter → Result FeeCaps
initial_fee_caps service submitter = validate_caps service.gas_policy >> (do
  suggested ← map_err (Error.wrapped "suggest gas price") submitter.suggest_gas_price
  gas_price ← require_positive suggested "suggested gas price must be positive"
  suggested_tip ← map_err (Error.wrapped "suggest gas tip cap") submitter.suggest_gas_tip_cap
  tip_cap ← require_positive suggested_tip "suggested gas tip cap must be positive"
  let priority_fee = cap_big tip_cap service.gas_policy.max_tip_cap
  let max_fee = gas_price +ℤ priority_fee
  let fee_caps : FeeCaps = record {
    max_fee_per_gas = some (cap_big max_fee service.gas_policy.max_fee_cap);
    max_priority_fee_per_gas = some priority_fee;
  }
  validate fee_caps >> ok fee_caps)

-- The replacement timeout is set, and has not passed since the pending submission.
unfoldable pub is_waiting : Service → PendingWithdrawal → Bool
is_waiting service pending =
    is_positive service.replacement_timeout
    && ltb_ℤ (sub_time service.now pending.submitted_at) service.replacement_timeout

-- The test of `nonceAndFeeCaps`: `ReplacementTimeout <= 0 || now.Sub(…) >= ReplacementTimeout`.
unfoldable pub is_due : Service → PendingWithdrawal → Bool
is_due service pending =
    not (is_positive service.replacement_timeout)
    || not (ltb_ℤ (sub_time service.now pending.submitted_at) service.replacement_timeout)

unfoldable pub nonce_and_fee_caps :
    Service → TransactionSubmitter → Address → Option PendingWithdrawal → Result (ℕ × FeeCaps)
nonce_and_fee_caps service submitter signer_address (some pending) =
    if is_due service pending
    then (bump_checked service.gas_policy pending.fee_caps >>= λ fees. ok (pending.nonce, fees))
    else ok (pending.nonce, pending.fee_caps)
nonce_and_fee_caps service submitter signer_address none = do
  nonce ← map_err (Error.wrapped "read pending nonce") (submitter.pending_nonce_at signer_address)
  fees ← initial_fee_caps service submitter
  ok (nonce, fees)

-- `10_000+bufferBPS` is computed in int64.
unfoldable pub buffered_gas : ℕ → ℤ → ℕ
buffered_gas gas buffer_bps =
    if is_positive buffer_bps
    then to_uint64 (div_ℕ (pos gas *ℤ to_int64 (pos 10000 +ℤ buffer_bps)) 10000)
    else gas

abbrev pub or_zero : Option ℤ → Option ℤ
or_zero none = some (pos 0)
or_zero (some v) = some v

unfoldable pub build_dynamic_fee_tx : TxCandidate → ℤ → ℕ → ℕ → FeeCaps → DynamicFeeTx
build_dynamic_fee_tx candidate chain_id nonce gas fees = record {
  chain_id = chain_id;
  nonce = nonce;
  gas_tip_cap = fees.max_priority_fee_per_gas;
  gas_fee_cap = fees.max_fee_per_gas;
  gas = gas;
  to = candidate.to;
  value = or_zero candidate.value;
  payload = candidate.payload;
}
