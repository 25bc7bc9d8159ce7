-- ===== src/Config/Decimals.antt =====
-- internal/config/units.go: what the parser of decimal units reads.
use native.Mathlib.Nat.{pow-suc, one-le-pow}
use withdraw_bot.Prelude.{
  ℕ, zero, suc, ◌+◌, ◌-◌, ◌*◌, ◌/◌, ◌%◌, ◌^◌, ◌≤◌, ◌<◌, String, true, false, not, List, [], ◌∷◌,
  ◌++◌, length, ◌<>◌, All-append, All, ◌≡◌, refl, sym, ap, ap₂, ◌∙◌, arith, ◌==◌, if◌then◌else◌,
}
use withdraw_bot.Errors.{Error, ok, err, fail_if, ◌orelse◌, ◌>>◌}
use withdraw_bot.Config.{
  too_precise, is_space, trim_left, trim_right, trim_space, is_unsigned_base10_decimal, rat_from,
  scale, is_blank, parse_decimal_units, parse_clean,
}
use withdraw_bot.Config.Digits.{
  IsDigit, spell, value_from, digit-space, scan-digit, scan-whole, scan-fraction, rat-whole,
  rat-fraction, value_from-append,
}

-- Blanks around a text that holds none.
abbrev pub IsBlank : ℕ → Type 0
IsBlank c = is_space c ≡ true

abbrev pub IsSolid : ℕ → Type 0
IsSolid c = is_space c ≡ false

trim_left-blanks :
    (bs : List ℕ) (c : ℕ) (cs : List ℕ)
    → All IsBlank bs
    → IsSolid c
    → trim_left (bs ++ (c ∷ cs)) ≡ c ∷ cs
trim_left-blanks [] c cs h k = ap (λ x. if x then trim_left cs else c ∷ cs) k
trim_left-blanks (b ∷ bs) c cs (h, hs) k =
    ap (λ x. if x then trim_left (bs ++ (c ∷ cs)) else b ∷ (bs ++ (c ∷ cs))) h
    ∙ trim_left-blanks bs c cs hs k

trim_right-blanks : (bs : List ℕ) → All IsBlank bs → trim_right bs ≡ []
trim_right-blanks [] h = refl
trim_right-blanks (b ∷ bs) (h, hs) =
    ap (λ t. elim t [ [] ↦ (if is_space b then [] else b ∷ []) | x ∷ xs ↦ b ∷ x ∷ xs ])
      (trim_right-blanks bs hs)
    ∙ ap (λ x. if x then [] else b ∷ []) h

trim_right-solid : (cs bs : List ℕ) → All IsSolid cs → All IsBlank bs → trim_right (cs ++ bs) ≡ cs
trim_right-solid [] bs h k = trim_right-blanks bs k
trim_right-solid (c ∷ cs) bs (h, hs) k =
    ap (λ t. elim t [ [] ↦ (if is_space c then [] else c ∷ []) | x ∷ xs ↦ c ∷ x ∷ xs ])
      (trim_right-solid cs bs hs k)
    ∙ kept cs
  where
    kept :
        (t : List ℕ)
        → elim t [ [] ↦ (if is_space c then [] else c ∷ []) | x ∷ xs ↦ c ∷ x ∷ xs ] ≡ c ∷ t
    kept [] = ap (λ x. if x then [] else c ∷ []) h
    kept (x ∷ xs) = refl

trim_space-solid :
    (before : List ℕ) (c : ℕ) (cs after : List ℕ)
    → All IsBlank before
    → All IsBlank after
    → All IsSolid (c ∷ cs)
    → trim_space (before ++ ((c ∷ cs) ++ after)) ≡ c ∷ cs
trim_space-solid before c cs after h k solid =
    ap trim_right (trim_left-blanks before c (cs ++ after) h solid.0)
    ∙ trim_right-solid (c ∷ cs) after solid k

spell-IsSolid : (ds : List ℕ) → All IsDigit ds → All IsSolid (spell ds)
spell-IsSolid [] h = tt
spell-IsSolid (d ∷ ds) (h, hs) = (digit-space d h, spell-IsSolid ds hs)

-- With enough decimals the amount is an integer.
pow_split : (a b : ℕ) → 10 ^ (a + b) ≡ 10 ^ a * 10 ^ b
pow_split zero b = ap (λ n. 10 ^ n) (zero_first b) ∙ one_first (10 ^ b)
  where
    zero_first : (n : ℕ) → zero + n ≡ n
    zero_first n = omega arith

    one_first : (n : ℕ) → n ≡ 10 ^ zero * n
    one_first n = omega arith
pow_split (suc a) b =
    ap (λ n. 10 ^ n) (suc_first a b)
    ∙ pow-suc 10 (a + b)
    ∙ regroup (10 ^ (a + b)) (10 ^ a) (10 ^ b) (pow_split a b)
    ∙ ap (λ n. n * 10 ^ b) (sym (pow-suc 10 a))
  where
    suc_first : (m n : ℕ) → suc m + n ≡ suc (m + n)
    suc_first m n = omega arith

    regroup : (x y z : ℕ) → x ≡ y * z → x * 10 ≡ y * 10 * z
    regroup x y z h = grind arith

exact : (n d : ℕ) → 0 < d → ((n * d % d == 0) ≡ true) × (n * d / d ≡ n)
exact n d h = (grind arith, grind arith)

pow_positive : (n : ℕ) → 0 < 10 ^ n
pow_positive n = one-le-pow n 10 (omega arith)

scale-exact :
    (name : String) (decimals number after : ℕ)
    → after ≤ decimals
    → scale name decimals (number, after) ≡ ok (number * 10 ^ (decimals - after))
scale-exact name decimals number after h =
    let kept = number * 10 ^ (decimals - after) in
    let split : number * 10 ^ decimals ≡ kept * 10 ^ after =
      ap (λ n. number * 10 ^ n) (apart h)
      ∙ ap (λ n. number * n) (pow_split (decimals - after) after)
      ∙ regroup number (10 ^ (decimals - after)) (10 ^ after) in
    let (divides, quotient) = exact kept (10 ^ after) (pow_positive after) in
    ap (λ n. if n % 10 ^ after == 0 then ok (n / 10 ^ after) else err (too_precise name decimals))
      split
    ∙ ap (λ b. if b then ok (kept * 10 ^ after / 10 ^ after) else err (too_precise name decimals))
        divides
    ∙ ap ok quotient
  where
    apart : {a d : ℕ} → a ≤ d → d ≡ d - a + a
    apart h = omega arith

    regroup : (x y z : ℕ) → x * (y * z) ≡ x * y * z
    regroup x y z = grind arith

parse_clean-read :
    (name : String) (clean : List ℕ) (decimals number after : ℕ)
    → is_blank clean ≡ false
    → is_unsigned_base10_decimal clean ≡ true
    → rat_from 0 false 0 clean ≡ (number, after)
    → parse_clean name clean decimals ≡ scale name decimals (number, after)
unfolding parse_clean
parse_clean-read name clean decimals number after b u r =
    ap
      (λ x.
        (fail_if x (Error.message (name <> " is required"))
          orelse fail_if (not (is_unsigned_base10_decimal clean))
              (Error.message (name <> " must be an unsigned base-10 decimal string")))
        >> scale name decimals (rat_from 0 false 0 clean))
      b
    ∙ ap
        (λ x.
          fail_if (not x) (Error.message (name <> " must be an unsigned base-10 decimal string"))
          >> scale name decimals (rat_from 0 false 0 clean))
        u
    ∙ ap (scale name decimals) r

is_decimal :
    (w : ℕ) (ws : List ℕ) (f : ℕ) (fs : List ℕ)
    → All IsDigit (w ∷ ws)
    → All IsDigit (f ∷ fs)
    → is_unsigned_base10_decimal (spell (w ∷ ws) ++ (46 ∷ spell (f ∷ fs))) ≡ true
unfolding is_unsigned_base10_decimal
is_decimal w ws f fs (hw, hws) (hf, hfs) =
    scan-digit w (spell ws ++ (46 ∷ spell (f ∷ fs))) false false 0 hw
    ∙ scan-whole ws (46 ∷ spell (f ∷ fs)) 0 hws
    ∙ scan-digit f (spell fs) true true 0 hf
    ∙ scan-fraction fs 1 hfs (omega arith)

is_rat :
    (ws fs : List ℕ)
    → All IsDigit ws
    → All IsDigit fs
    → rat_from 0 false 0 (spell ws ++ (46 ∷ spell fs)) ≡ (value_from 0 (ws ++ fs), length fs)
is_rat ws fs hw hf =
    rat-whole ws (46 ∷ spell fs) 0 0 hw
    ∙ rat-fraction fs (value_from 0 ws) 0 hf
    ∙ ap₂ (λ x y. (x, y)) (sym (value_from-append 0 ws fs)) (zero_first (length fs))
  where
    zero_first : (n : ℕ) → 0 + n ≡ n
    zero_first n = omega arith

-- A text of blanks, digits, a point, digits and blanks, with at least one digit on each side of the
-- point and no more after it than there are decimals, is read as the number that all the digits
-- spell, times 10 for each of the decimals that is not written.
pub parse_decimal_units-spell :
    (name : String) (before after : List ℕ) (w : ℕ) (ws : List ℕ) (f : ℕ) (fs : List ℕ)
    (decimals : ℕ)
    → All IsBlank before
    → All IsBlank after
    → All IsDigit (w ∷ ws)
    → All IsDigit (f ∷ fs)
    → length (f ∷ fs) ≤ decimals
    → parse_decimal_units name
        (before ++ ((spell (w ∷ ws) ++ (46 ∷ spell (f ∷ fs))) ++ after))
        decimals
      ≡ ok (value_from 0 ((w ∷ ws) ++ (f ∷ fs)) * 10 ^ (decimals - length (f ∷ fs)))
unfolding parse_decimal_units
parse_decimal_units-spell name before after w ws f fs decimals hb ha hw hf fits =
    ap (λ clean. parse_clean name clean decimals)
      (trim_space-solid before (48 + w) (spell ws ++ (46 ∷ spell (f ∷ fs))) after hb ha (
        All-append IsSolid (spell (w ∷ ws)) (46 ∷ spell (f ∷ fs)) (spell-IsSolid (w ∷ ws) hw)
          (refl, spell-IsSolid (f ∷ fs) hf)))
    ∙ parse_clean-read name (spell (w ∷ ws) ++ (46 ∷ spell (f ∷ fs))) decimals _ _ refl
        (is_decimal w ws f fs hw hf) (is_rat (w ∷ ws) (f ∷ fs) hw hf)
    ∙ scale-exact name decimals (value_from 0 ((w ∷ ws) ++ (f ∷ fs))) (length (f ∷ fs)) fits
