-- ===== src/Modules/LossBps.antt =====
-- internal/monitor/modules/morpho/share_price.go: the loss in basis points.
use withdraw_bot.Prelude.{
  ℕ, pos, ◌+◌, ◌-◌, ◌*◌, ◌/◌, ◌≤◌, ◌<◌, ◌≡◌, ◌↔◌, ◌-ℤ◌, ◌*ℤ◌, div_ℤ, div_ℕ-pos, -ℤ-pos, *ℤ-pos,
  to_int64, to_int64_small, arith, if◌then◌else◌, leb, true, false, Bool-cases, inl, inr, subst,
  sym,
}
use withdraw_bot.Modules.SharePrice.{loss_bps}

-- The loss as a natural number: the part of the reference that is gone, rounded down.
abbrev pub lost : ℕ → ℕ → ℕ
lost reference current =
    if leb reference current then 0 else (reference - current) * 10000 / reference

div_ℤ-pos : (a d : ℕ) → div_ℤ (pos a) (pos d) ≡ pos (a / d)
unfolding div_ℤ
div_ℤ-pos a d = div_ℕ-pos a d

-- A quotient is at least `t` exactly when the number is at least `t` times the divisor.
quotient_ge : (a d t : ℕ) → 0 < d → (t ≤ a / d) ↔ (t * d ≤ a)
quotient_ge a d t h = (λ k. grind arith, λ k. grind arith)

quotient_bound : (a d : ℕ) → 0 < d → a ≤ d * 10000 → a / d ≤ 10000
quotient_bound a d h k = grind arith

exact_loss :
    (reference current : ℕ)
    → current < reference
    → to_int64 (div_ℤ ((pos reference -ℤ pos current) *ℤ pos 10000) (pos reference))
      ≡ pos ((reference - current) * 10000 / reference)
exact_loss reference current h =
    let small : (reference - current) * 10000 / reference ≤ 10000 =
      quotient_bound ((reference - current) * 10000) reference (omega arith) (omega arith) in
    rw (
      -ℤ-pos reference current (omega arith),
      *ℤ-pos (reference - current) 10000,
      div_ℤ-pos ((reference - current) * 10000) reference,
      to_int64_small ((reference - current) * 10000 / reference) (omega arith),
    )

low : (reference current : ℕ) → leb reference current ≡ true → lost reference current ≡ 0
low reference current e = ground arith

high :
    (reference current : ℕ)
    → leb reference current ≡ false
    → (current < reference) × (lost reference current ≡ (reference - current) * 10000 / reference)
high reference current e = (ground arith, ground arith)

-- From a reference to a price, neither of them negative, the int64 conversion loses nothing.
pub loss_bps-pos :
    (reference current : ℕ) → loss_bps (pos reference) (pos current) ≡ pos (lost reference current)
unfolding loss_bps
loss_bps-pos reference current = elim (Bool-cases (leb reference current)) [
  | inl e ↦ ground arith
  | inr e ↦
      let h = (high reference current e).0 in let x = exact_loss reference current h in ground arith
]

-- A positive threshold is crossed exactly when the price is at most the reference less that part.
pub lost-ge :
    (reference current t : ℕ)
    → 0 < reference
    → 0 < t
    → (t ≤ lost reference current) ↔ (t * reference + current * 10000 ≤ reference * 10000)
lost-ge reference current t h k = elim (Bool-cases (leb reference current)) [
  | inl e ↦ let z = low reference current e in (λ p. ground arith, λ p. grind arith)
  | inr e ↦
      let (_, x) = high reference current e in
      let q = quotient_ge ((reference - current) * 10000) reference t h in
      (
        λ p. let r = q.0 (subst (λ n. t ≤ n) x p) in omega arith,
        λ p. subst (λ n. t ≤ n) (sym x) (q.1 (omega arith)),
      )
]
