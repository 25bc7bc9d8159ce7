-- ===== src/Gas/Bump.antt =====
-- internal/withdraw/gas.go: which fee caps are valid, and what a bump of valid fees gives.
use Prim.Native.Nat.{min}
use withdraw_bot.Prelude.{
  ℕ, ℤ, pos, ◌+◌, ◌*◌, ◌/◌, ◌≤◌, ◌<◌, ◌≡◌, Option, none, some, arith, pos_part, ap, ◌∙◌,
  to_int64_small, +ℤ-pos, *ℤ-pos, div_ℕ-pos,
}
use withdraw_bot.Errors.{ok, >>-eq-ok}
use withdraw_bot.Gas.{
  FeeCaps, GasPolicy, validate_caps, validate, bump_bps_of, cap_big, bump_fee, bumped, bump_checked,
}

-- The value of a fee; 0 where it is nil.
abbrev pub amount : Option ℤ → ℕ
amount none = 0
amount (some v) = pos_part v

-- Both fees are set, and 0 < tip ≤ fee.
pub record IsPayable (fees : FeeCaps) : Type 0 where
  pub fee_set : fees.max_fee_per_gas ≡ some (pos (amount fees.max_fee_per_gas))
  pub tip_set : fees.max_priority_fee_per_gas ≡ some (pos (amount fees.max_priority_fee_per_gas))
  pub tip_positive : 0 < amount fees.max_priority_fee_per_gas
  pub tip_le_fee : amount fees.max_priority_fee_per_gas ≤ amount fees.max_fee_per_gas

-- A fee is at most the cap, where there is one.
abbrev pub IsWithin : Option ℤ → Option ℤ → Type 0
IsWithin fee none = Unit
IsWithin fee (some cap) = amount fee ≤ pos_part cap

pub validate-IsPayable : (fees : FeeCaps) → validate fees ≡ none → IsPayable fees
unfolding validate
validate-IsPayable fees h = ground arith

pub IsPayable-validate : (fees : FeeCaps) → IsPayable fees → validate fees ≡ none
unfolding validate
IsPayable-validate fees h = ground arith

pub cap_big-IsWithin : (v : ℤ) (cap : Option ℤ) → IsWithin (some (cap_big v cap)) cap
unfolding cap_big
cap_big-IsWithin v none = tt
cap_big-IsWithin v (some cap) = ground arith

bumped-IsWithin :
    (policy : GasPolicy) (fees : FeeCaps)
    → IsWithin (bumped policy fees).max_fee_per_gas policy.max_fee_cap
      × IsWithin (bumped policy fees).max_priority_fee_per_gas policy.max_tip_cap
unfolding bumped
bumped-IsWithin policy fees = (
  capped fees.max_fee_per_gas policy.max_fee_cap,
  capped fees.max_priority_fee_per_gas policy.max_tip_cap,
)
  where
    capped : (fee cap : Option ℤ) → IsWithin (bump_fee policy.bump_bps cap fee) cap
    capped none none = tt
    capped none (some cap) = omega arith
    capped (some v) cap = cap_big-IsWithin (bump_bps_of v policy.bump_bps) cap

bump_checked-inv :
    (policy : GasPolicy) (fees result : FeeCaps)
    → bump_checked policy fees ≡ ok result
    → (bumped policy fees ≡ result) × (validate result ≡ none)
unfolding bump_checked
bump_checked-inv policy fees result h =
    let tail = >>-eq-ok (validate fees) _ (>>-eq-ok (validate_caps policy) _ h).1 in
    let last = >>-eq-ok (validate (bumped policy fees)) _ tail.1 in
    let e : bumped policy fees ≡ result = cc last.1 in (e, rw (← e) last.0)

-- Whatever the policy and the fees: if the bump succeeds, the new fees are set, 0 < tip ≤ fee, and
-- each is within its cap.
pub bump_checked_sound :
    (policy : GasPolicy) (fees result : FeeCaps)
    → bump_checked policy fees ≡ ok result
    → IsPayable result
      × IsWithin result.max_fee_per_gas policy.max_fee_cap
      × IsWithin result.max_priority_fee_per_gas policy.max_tip_cap
bump_checked_sound policy fees result h =
    let (e, valid) = bump_checked-inv policy fees result h in
    let within = bumped-IsWithin policy fees in
    (validate-IsPayable result valid, rw (← e) within.0, rw (← e) within.1)

-- A fee of `v` that is raised by `bps` basis points, rounded down.
abbrev pub raised : ℕ → ℕ → ℕ
raised v bps = v * (10000 + bps) / 10000

bump_bps_of-raised : (v bps : ℕ) → bps ≤ 10000 → bump_bps_of (pos v) (pos bps) ≡ pos (raised v bps)
unfolding bump_bps_of
bump_bps_of-raised v bps h =
    rw (+ℤ-pos 10000 bps, to_int64_small (10000 + bps) (omega arith), *ℤ-pos, div_ℕ-pos)

pub raised-ge : (v bps : ℕ) → v ≤ raised v bps
raised-ge v bps = grind arith

-- The policy as the runtime builds it: both caps are set.
abbrev pub capped_policy : ℕ → ℕ → ℕ → GasPolicy
capped_policy bps fee_cap tip_cap = record {
  bump_bps = pos bps;
  max_fee_cap = some (pos fee_cap);
  max_tip_cap = some (pos tip_cap);
}

abbrev pub caps : ℕ → ℕ → FeeCaps
caps fee tip = record {
  max_fee_per_gas = some (pos fee);
  max_priority_fee_per_gas = some (pos tip);
}

abbrev pub raised_caps : ℕ → ℕ → ℕ → ℕ → ℕ → FeeCaps
raised_caps bps fee_cap tip_cap fee tip =
    caps (min fee_cap (raised fee bps)) (min tip_cap (raised tip bps))

bumped-raised_caps :
    (bps fee_cap tip_cap fee tip : ℕ)
    → bps ≤ 10000
    → bumped (capped_policy bps fee_cap tip_cap) (caps fee tip)
      ≡ raised_caps bps fee_cap tip_cap fee tip
unfolding bumped cap_big
bumped-raised_caps bps fee_cap tip_cap fee tip h =
    rw (bump_bps_of-raised fee bps h, bump_bps_of-raised tip bps h) (ground arith)

bump_checked-ok :
    (policy : GasPolicy) (fees : FeeCaps)
    → validate_caps policy ≡ none
    → validate fees ≡ none
    → validate (bumped policy fees) ≡ none
    → bump_checked policy fees ≡ ok (bumped policy fees)
unfolding bump_checked
bump_checked-ok policy fees c v w = rw (c, v, w)

pub capped_policy-valid :
    (bps fee_cap tip_cap : ℕ)
    → 0 < tip_cap
    → tip_cap ≤ fee_cap
    → validate_caps (capped_policy bps fee_cap tip_cap) ≡ none
unfolding validate_caps
capped_policy-valid bps fee_cap tip_cap p q = ground arith

pub caps-valid : (fee tip : ℕ) → 0 < tip → tip ≤ fee → validate (caps fee tip) ≡ none
unfolding validate
caps-valid fee tip p q = ground arith

raised_mono : (v w bps : ℕ) → v ≤ w → raised v bps ≤ raised w bps
raised_mono v w bps h = grind arith

raised_caps-valid :
    (bps fee_cap tip_cap fee tip : ℕ)
    → 0 < tip_cap
    → tip_cap ≤ fee_cap
    → 0 < tip
    → tip ≤ fee
    → validate (raised_caps bps fee_cap tip_cap fee tip) ≡ none
raised_caps-valid bps fee_cap tip_cap fee tip hp hc ht hf =
    caps-valid _ _ (omega (arith, raised-ge tip bps)) (omega (arith, raised_mono tip fee bps hf))

-- With bps of at most 10000, positive caps, a tip cap of at most the fee cap, and fees with
-- 0 < tip ≤ fee, the bump succeeds: each fee is raised by bps basis points (rounded down), up to
-- its cap, and no fee that was within its cap is lowered.
pub bump_checked_total :
    (bps fee_cap tip_cap fee tip : ℕ)
    → bps ≤ 10000
    → 0 < tip_cap
    → tip_cap ≤ fee_cap
    → 0 < tip
    → tip ≤ fee
    → (bump_checked (capped_policy bps fee_cap tip_cap) (caps fee tip)
        ≡ ok (raised_caps bps fee_cap tip_cap fee tip))
      × (min fee_cap fee ≤ min fee_cap (raised fee bps))
      × (min tip_cap tip ≤ min tip_cap (raised tip bps))
bump_checked_total bps fee_cap tip_cap fee tip hb hp hc ht hf =
    (bumps, omega (arith, raised-ge fee bps), omega (arith, raised-ge tip bps))
  where
    same :
        bumped (capped_policy bps fee_cap tip_cap) (caps fee tip)
        ≡ raised_caps bps fee_cap tip_cap fee tip
    same = bumped-raised_caps bps fee_cap tip_cap fee tip hb

    bumps :
        bump_checked (capped_policy bps fee_cap tip_cap) (caps fee tip)
        ≡ ok (raised_caps bps fee_cap tip_cap fee tip)
    bumps =
        bump_checked-ok (capped_policy bps fee_cap tip_cap) (caps fee tip)
          (capped_policy-valid bps fee_cap tip_cap hp hc) (caps-valid fee tip ht hf)
          (rw same (raised_caps-valid bps fee_cap tip_cap fee tip hp hc ht hf))
        ∙ ap ok same
