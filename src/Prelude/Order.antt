-- ===== src/Prelude/Order.antt =====
-- The order of native texts, `a < b`: it is asymmetric, transitive and total.
use Prim.Native.Nat.{ℕ, compare as compare_ℕ, Ordering}
use Prim.Native.Char.{code}
use Prim.Native.String.compare
use Prim.Native.String.{String, [], ◌∷◌, compare, then}
use mathlib.Core.Path.{◌≡◌, refl, ap, ap₂, ◌∙◌, sym}
use mathlib.Core.Bool.{true, false}
use text.Mathlib.Text.{is_lt}
use text.Mathlib.TextPositions.{compare_refl}
use native.Mathlib.Omega.{arith}
use withdraw_bot.Prelude.Text.{str_eq, str_ltb}

abbrev flipped : Ordering → Ordering
flipped Ordering.lt = Ordering.gt
flipped Ordering.eq = Ordering.eq
flipped Ordering.gt = Ordering.lt

flipped-compare_ℕ : (m n : ℕ) → compare_ℕ n m ≡ flipped (compare_ℕ m n)
flipped-compare_ℕ m n = ground arith

flipped-then : (a b : Ordering) → then (flipped a) (flipped b) ≡ flipped (then a b)
flipped-then Ordering.lt b = refl
flipped-then Ordering.eq b = refl
flipped-then Ordering.gt b = refl

flipped-compare : (s t : String) → compare t s ≡ flipped (compare s t)
flipped-compare [] [] = refl
flipped-compare [] (d ∷ t) = compare.cons-nil d t ∙ ap flipped (sym (compare.nil-cons d t))
flipped-compare (c ∷ s) [] = compare.nil-cons c s ∙ ap flipped (sym (compare.cons-nil c s))
flipped-compare (c ∷ s) (d ∷ t) =
    compare.cons-cons d c t s
    ∙ ap₂ then (flipped-compare_ℕ (code c) (code d)) (flipped-compare s t)
    ∙ flipped-then (compare_ℕ (code c) (code d)) (compare s t)
    ∙ ap flipped (sym (compare.cons-cons c d s t))

abbrev Lt : String → String → Type 0
Lt s t = compare s t ≡ Ordering.lt

compare_trans : (s t u : String) → Lt s t → Lt t u → Lt s u
compare_trans [] [] u p q = q
compare_trans [] (d ∷ t) [] p q = let bad = sym (compare.cons-nil d t) ∙ q in cc
compare_trans [] (d ∷ t) (e ∷ u) p q = compare.nil-cons e u
compare_trans (c ∷ s) [] u p q = let bad = sym (compare.cons-nil c s) ∙ p in cc
compare_trans (c ∷ s) (d ∷ t) [] p q = let bad = sym (compare.cons-nil d t) ∙ q in cc
compare_trans (c ∷ s) (d ∷ t) (e ∷ u) p q =
    let p' = sym (compare.cons-cons c d s t) ∙ p in
    let q' = sym (compare.cons-cons d e t u) ∙ q in
    compare.cons-cons c e s u ∙ ground (arith, compare_trans s t u)

is_lt-true : (o : Ordering) → is_lt o ≡ true → o ≡ Ordering.lt
is_lt-true Ordering.lt h = refl
is_lt-true Ordering.eq h = cc
is_lt-true Ordering.gt h = cc

pub str_ltb_trans : (a b c : String) → str_ltb a b ≡ true → str_ltb b c ≡ true → str_ltb a c ≡ true
str_ltb_trans a b c p q =
    ap is_lt (compare_trans a b c (is_lt-true (compare a b) p) (is_lt-true (compare b c) q))

pub str_ltb_asym : (a b : String) → str_ltb a b ≡ true → str_ltb b a ≡ false
str_ltb_asym a b h = ap is_lt (flipped-compare a b ∙ ap flipped (is_lt-true (compare a b) h))

pub str_ltb_irrefl : (a : String) → str_ltb a a ≡ false
str_ltb_irrefl a = ap is_lt (compare_refl a)

-- Of two texts that are not equal, one is below the other.
pub str_ltb_total : (a b : String) → str_eq a b ≡ false → str_ltb a b ≡ false → str_ltb b a ≡ true
str_ltb_total a b ne h = ground (arith, flipped-compare a b)
