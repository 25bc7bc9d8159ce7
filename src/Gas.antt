-- ===== src/Gas.antt =====
-- internal/withdraw/gas.go: the fee caps of a transaction, and the policy by which the fees of a
-- replacement are raised.
pub mod Bump
use withdraw_bot.Prelude.{
  ℤ, pos, Bool, true, false, Option, none, some, ◌+ℤ◌, ◌*ℤ◌, div_ℕ, to_int64, ltb_ℤ, is_positive,
  not, if◌then◌else◌,
}
use withdraw_bot.Errors.{Error, Error.message, Result, ok, err, ◌>>◌, fail_if, ◌orelse◌, is_none}

pub record FeeCaps : Type 0 where
  pub max_fee_per_gas : Option ℤ
  pub max_priority_fee_per_gas : Option ℤ

abbrev pub no_fee_caps : FeeCaps
no_fee_caps = record { max_fee_per_gas = none; max_priority_fee_per_gas = none }

pub record GasPolicy : Type 0 where
  pub bump_bps : ℤ
  pub max_fee_cap : Option ℤ
  pub max_tip_cap : Option ℤ

-- `value != nil && value.Sign() <= 0`
abbrev not_positive : Option ℤ → Bool
not_positive none = false
not_positive (some v) = not (is_positive v)

-- `a.Cmp(b) < 0` of two pointers that are not nil.
abbrev below : Option ℤ → Option ℤ → Bool
below (some a) (some b) = ltb_ℤ a b
below _ _ = false

unfoldable pub validate_caps : GasPolicy → Option Error
validate_caps policy =
    fail_if (not_positive policy.max_fee_cap) (message "max fee cap must be positive")
    orelse fail_if (not_positive policy.max_tip_cap) (message "max tip cap must be positive")

unfoldable pub validate : FeeCaps → Option Error
validate fees =
    fail_if (is_none fees.max_fee_per_gas) (message "max fee per gas is required")
    orelse fail_if (is_none fees.max_priority_fee_per_gas)
        (message "max priority fee per gas is required")
    orelse fail_if (not_positive fees.max_fee_per_gas) (message "max fee per gas must be positive")
    orelse fail_if (not_positive fees.max_priority_fee_per_gas)
        (message "max priority fee per gas must be positive")
    orelse fail_if (below fees.max_fee_per_gas fees.max_priority_fee_per_gas)
        (message "max fee per gas must be greater than or equal to max priority fee per gas")

-- `10_000+bps` is computed in int64.
unfoldable pub bump_bps_of : ℤ → ℤ → ℤ
bump_bps_of value bps = div_ℕ (value *ℤ to_int64 (pos 10000 +ℤ bps)) 10000

unfoldable pub cap_big : ℤ → Option ℤ → ℤ
cap_big value none = value
cap_big value (some cap) = if ltb_ℤ cap value then cap else value

-- A bump of a fee that is not nil; the caller has validated the fees.
abbrev bump_fee : ℤ → Option ℤ → Option ℤ → Option ℤ
bump_fee bps cap none = none
bump_fee bps cap (some v) = some (cap_big (bump_bps_of v bps) cap)

unfoldable pub bumped : GasPolicy → FeeCaps → FeeCaps
bumped policy fees = record {
  max_fee_per_gas = bump_fee policy.bump_bps policy.max_fee_cap fees.max_fee_per_gas;
  max_priority_fee_per_gas =
      bump_fee policy.bump_bps policy.max_tip_cap fees.max_priority_fee_per_gas;
}

unfoldable pub bump_checked : GasPolicy → FeeCaps → Result FeeCaps
bump_checked policy fees =
    validate_caps policy
    >> (validate fees >> let result = bumped policy fees in validate result >> ok result)

pub bump : GasPolicy → FeeCaps → FeeCaps
bump policy fees = elim (bump_checked policy fees) [ ok result ↦ result | err _ ↦ no_fee_caps ]
