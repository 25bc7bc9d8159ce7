-- ===== src/Tests/Fees.antt =====
-- internal/withdraw/gas.go and service.go, internal/config/units.go and internal/core/status.go at
-- concrete inputs.
use withdraw_bot.Prelude.{false, pos, some, [], ◌∷◌, ◌≡◌, refl, arith, ◌-ℤ◌}
use withdraw_bot.Errors.{ok}
use withdraw_bot.Config.{parse_decimal_units, parse_clean, parse_gwei, is_unsigned_base10_decimal}
use withdraw_bot.Config.Decimals.{parse_decimal_units-spell}
use withdraw_bot.Gas.{bump_checked}
use withdraw_bot.Gas.Bump.{caps, capped_policy, bump_checked_total}
use withdraw_bot.Withdraw.Fees.{is_due, nonce_and_fee_caps, sub_time}
use withdraw_bot.Withdraw.Pricing.{HasPayable}
use withdraw_bot.Tests.World.{network, service_at, pending_exit}

bumped_twice : bump_checked (capped_policy 1000 120 50) (caps 110 10) ≡ ok (caps 120 11)
bumped_twice =
    (bump_checked_total 1000 120 50 110 10 (omega arith) (omega arith) (omega arith) (omega arith)
      (omega arith)).0

payable : HasPayable (some pending_exit)
payable = record {
  fee_set = refl;
  tip_set = refl;
  tip_positive = omega arith;
  tip_le_fee = omega arith;
}

-- Before the timeout the nonce and the fees are those of the pending withdrawal.
early :
    nonce_and_fee_caps (service_at (pos 1030)) network 21 (some pending_exit) ≡ ok (5, caps 110 10)
unfolding nonce_and_fee_caps is_due sub_time ◌-ℤ◌
early = refl

-- " 12.5\n" with 6 decimals.
parse_decimal_units-spell_example :
    parse_decimal_units "amount" (32 ∷ 49 ∷ 50 ∷ 46 ∷ 53 ∷ 10 ∷ []) 6 ≡ ok 12500000
parse_decimal_units-spell_example =
    parse_decimal_units-spell "amount" (32 ∷ []) (10 ∷ []) 1 (2 ∷ []) 5 [] 6 (refl, tt) (refl, tt)
      (omega arith, (omega arith, tt)) (omega arith, tt) (omega arith)

refuses_two_points : is_unsigned_base10_decimal (49 ∷ 46 ∷ 50 ∷ 46 ∷ 51 ∷ []) ≡ false
unfolding is_unsigned_base10_decimal
refuses_two_points = refl

-- A cap of 0 gwei is read as an amount.
reads_zero : parse_gwei "gas.max_fee_per_gas_gwei" (48 ∷ []) ≡ ok 0
unfolding parse_gwei parse_decimal_units parse_clean is_unsigned_base10_decimal
reads_zero = refl
