-- ===== src/Withdraw/Pricing.antt =====
-- internal/withdraw/service.go: the fees and the gas that a transaction is built with.
use Prim.Native.Nat.{min}
use withdraw_bot.Prelude.{
  ℕ, String, pos, ◌+◌, ◌*◌, ◌/◌, ◌≤◌, ◌<◌, ◌^◌, ◌≡◌, not, Option, none, some, arith, +ℤ-pos, *ℤ-pos,
  div_ℕ-pos, to_int64_small, to_uint64_small, zero, suc, inl, inr, Bool-cases,
}
use withdraw_bot.Errors.{Error, ok, ◌>>=◌, ◌>>◌, map_err, >>=-eq-ok, >>-eq-ok}
use withdraw_bot.Core.{Address}
use withdraw_bot.Gas.{FeeCaps, validate, cap_big, bump_checked, validate_caps}
use withdraw_bot.Gas.Bump.{
  IsPayable, validate-IsPayable, bump_checked_sound, capped_policy, caps, caps-valid,
  capped_policy-valid, raised, raised-ge,
}
use withdraw_bot.Withdraw.Types.{Service, TransactionSubmitter, PendingWithdrawal}
use withdraw_bot.Withdraw.Fees.{
  initial_fee_caps, require_positive, is_waiting, is_due, nonce_and_fee_caps, buffered_gas,
}

-- The wait and its negation are one test, so that a submission that replaces a pending one always
-- raises the fees.
pub is_due-not-is_waiting :
    (service : Service) (p : PendingWithdrawal) → is_due service p ≡ not (is_waiting service p)
unfolding is_waiting is_due
is_due-not-is_waiting service p = ground arith

require_positive-pos :
    (n : ℕ) (text : String) → 0 < n → require_positive (some (pos n)) text ≡ ok (pos n)
unfolding require_positive
require_positive-pos n text h = ground arith

cap_big-min : (v cap : ℕ) → cap_big (pos v) (some (pos cap)) ≡ pos (min cap v)
unfolding cap_big
cap_big-min v cap = ground arith

-- With positive caps, a tip cap of at most the fee cap, and suggestions that are positive, the
-- first fees are: the suggested tip up to its cap, and the suggested price plus that tip up to the
-- fee cap.
pub initial_fee_caps_total :
    (service : Service) (submitter : TransactionSubmitter) (bps fee_cap tip_cap price tip : ℕ)
    → service.gas_policy ≡ capped_policy bps fee_cap tip_cap
    → 0 < tip_cap
    → tip_cap ≤ fee_cap
    → submitter.suggest_gas_price ≡ ok (some (pos price))
    → submitter.suggest_gas_tip_cap ≡ ok (some (pos tip))
    → 0 < price
    → 0 < tip
    → initial_fee_caps service submitter
      ≡ ok (caps (min fee_cap (price + min tip_cap tip)) (min tip_cap tip))
unfolding initial_fee_caps
initial_fee_caps_total service submitter bps fee_cap tip_cap price tip policy hc hf hp ht p0 t0 =
    rw
      (
        policy,
        capped_policy-valid bps fee_cap tip_cap hc hf,
        hp,
        require_positive-pos price _ p0,
        ht,
      )
      (rw (require_positive-pos tip _ t0, cap_big-min, +ℤ-pos, cap_big-min)
        (rw (
          caps-valid (min fee_cap (price + min tip_cap tip)) (min tip_cap tip) (omega arith)
            (omega arith))))

initial_fee_caps-IsPayable :
    (service : Service) (submitter : TransactionSubmitter) (fees : FeeCaps)
    → initial_fee_caps service submitter ≡ ok fees
    → IsPayable fees
unfolding initial_fee_caps
initial_fee_caps-IsPayable service submitter fees h =
    let priced = (>>-eq-ok (validate_caps service.gas_policy) _ h).1 in
    let (suggested, _, h1) =
      >>=-eq-ok (map_err (Error.wrapped "suggest gas price") submitter.suggest_gas_price) _
        priced in
    let (price, _, h2) =
      >>=-eq-ok (require_positive suggested "suggested gas price must be positive") _ h1 in
    let (suggested_tip, _, h3) =
      >>=-eq-ok (map_err (Error.wrapped "suggest gas tip cap") submitter.suggest_gas_tip_cap) _
        h2 in
    let (tip, _, h4) =
      >>=-eq-ok (require_positive suggested_tip "suggested gas tip cap must be positive") _ h3 in
    last _ h4
  where
    last : (k : FeeCaps) → (validate k >> ok k) ≡ ok fees → IsPayable fees
    last k h =
        let (valid, same) = >>-eq-ok (validate k) (ok k) h in
        let e : k ≡ fees = cc same in validate-IsPayable fees (rw (← e) valid)

-- What is pending has fees that a transaction can pay.
abbrev pub HasPayable : Option PendingWithdrawal → Type 0
HasPayable none = Unit
HasPayable (some p) = IsPayable p.fee_caps

-- If the fees of the pending withdrawal are payable (or nothing is pending), the chosen fees are
-- payable: both set, 0 < tip ≤ fee.
pub nonce_and_fee_caps-IsPayable :
    (service : Service) (submitter : TransactionSubmitter) (a : Address)
    (pending : Option PendingWithdrawal) (nonce : ℕ) (fees : FeeCaps)
    → HasPayable pending
    → nonce_and_fee_caps service submitter a pending ≡ ok (nonce, fees)
    → IsPayable fees
unfolding nonce_and_fee_caps
nonce_and_fee_caps-IsPayable service submitter a none nonce fees payable h =
    let (n, _, h1) =
      >>=-eq-ok (map_err (Error.wrapped "read pending nonce") (submitter.pending_nonce_at a)) _ h in
    let (f, first, h2) = >>=-eq-ok (initial_fee_caps service submitter) _ h1 in
    let e : f ≡ fees = cc h2 in initial_fee_caps-IsPayable service submitter fees (rw (← e) first)
nonce_and_fee_caps-IsPayable service submitter a (some p) nonce fees payable h =
    elim (Bool-cases (is_due service p)) [
      | inl due ↦
          let h1 : (bump_checked service.gas_policy p.fee_caps >>= λ f. ok (p.nonce, f))
              ≡ ok (nonce, fees) =
            rw due at h in
          let (f, bumped, h2) = >>=-eq-ok (bump_checked service.gas_policy p.fee_caps) _ h1 in
          let e : f ≡ fees = cc h2 in
          (bump_checked_sound service.gas_policy p.fee_caps fees (rw (← e) bumped)).0
      | inr early ↦
          let h1 : ok (p.nonce, p.fee_caps) ≡ ok (nonce, fees) = rw early at h in
          let e : p.fee_caps ≡ fees = cc h1 in rw (← e) payable
    ]

-- While a withdrawal is pending, the chosen nonce is its nonce.
pub nonce_and_fee_caps_reuses :
    (service : Service) (submitter : TransactionSubmitter) (a : Address) (p : PendingWithdrawal)
    (nonce : ℕ) (fees : FeeCaps)
    → nonce_and_fee_caps service submitter a (some p) ≡ ok (nonce, fees)
    → nonce ≡ p.nonce
unfolding nonce_and_fee_caps
nonce_and_fee_caps_reuses service submitter a p nonce fees h = ground arith

buffered_gas_exact :
    (gas bps : ℕ)
    → bps ≤ 10000
    → raised gas bps < 2 ^ 64
    → buffered_gas gas (pos bps) ≡ raised gas bps
unfolding buffered_gas
buffered_gas_exact gas zero hb fits = omega arith
buffered_gas_exact gas (suc bps) hb fits =
    rw (+ℤ-pos, to_int64_small (10000 + suc bps) (omega arith), *ℤ-pos, div_ℕ-pos)
      (rw (to_uint64_small (raised gas (suc bps)) fits) (ground arith))

-- With a buffer of at most 10000 basis points, and where the buffered amount fits in 64 bits, the
-- gas limit is the estimate raised by the buffer (rounded down), so it is never below the estimate.
buffered_gas_bounds :
    (gas bps : ℕ)
    → bps ≤ 10000
    → gas * (10000 + bps) / 10000 < 2 ^ 64
    → (buffered_gas gas (pos bps) ≡ gas * (10000 + bps) / 10000)
      × (gas ≤ buffered_gas gas (pos bps))
buffered_gas_bounds gas bps hb fits =
    let exact = buffered_gas_exact gas bps hb fits in (exact, rw exact (raised-ge gas bps))
