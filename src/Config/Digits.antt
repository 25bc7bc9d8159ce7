-- ===== src/Config/Digits.antt =====
-- internal/config/units.go: how digits are read.
use withdraw_bot.Prelude.{
  ℕ, suc, ◌+◌, ◌-◌, ◌*◌, ◌<◌, Bool, true, false, List, [], ◌∷◌, ◌++◌, map, length, All, ◌≡◌, refl,
  ap, ◌∙◌, arith, if◌then◌else◌,
}
use withdraw_bot.Config.{is_space, Character, character, scan, rat_from}

abbrev pub IsDigit : ℕ → Type 0
IsDigit d = d < 10

-- The text of some digits.
abbrev pub spell : List ℕ → List ℕ
spell digits = map (λ d. 48 + d) digits

-- The number that digits spell, after a number `n`.
abbrev pub value_from : ℕ → List ℕ → ℕ
value_from n [] = n
value_from n (d ∷ ds) = value_from (n * 10 + d) ds

digit-character : (d : ℕ) → d < 10 → character (48 + d) ≡ Character.digit
digit-character d h = ground arith

pub digit-space : (d : ℕ) → d < 10 → is_space (48 + d) ≡ false
digit-space d h = ground arith

-- One digit in each of the two loops.
pub scan-digit :
    (d : ℕ) (cs : List ℕ) (a p : Bool) (n : ℕ)
    → d < 10
    → scan ((48 + d) ∷ cs) a p n ≡ scan cs true p (if p then suc n else n)
scan-digit d cs a p n h = rw (digit-character d h, scan) refl

rat-digit :
    (d : ℕ) (cs : List ℕ) (m : ℕ) (p : Bool) (n : ℕ)
    → d < 10
    → rat_from m p n ((48 + d) ∷ cs) ≡ rat_from (m * 10 + d) p (if p then suc n else n) cs
rat-digit d cs m p n h =
    rw (digit-character d h, rat_from)
      (ap (λ x. rat_from (m * 10 + x) p (if p then suc n else n) cs) (back d))
  where
    back : (x : ℕ) → 48 + x - 48 ≡ x
    back x = omega arith

-- Digits before the point, and after it.
pub scan-whole :
    (ds cs : List ℕ) (n : ℕ)
    → All IsDigit ds
    → scan (spell ds ++ cs) true false n ≡ scan cs true false n
scan-whole [] cs n h = refl
scan-whole (d ∷ ds) cs n (h, hs) =
    scan-digit d (spell ds ++ cs) true false n h ∙ scan-whole ds cs n hs

pub scan-fraction :
    (ds : List ℕ) (n : ℕ) → All IsDigit ds → 0 < n → scan (spell ds) true true n ≡ true
scan-fraction [] n h k = ground arith
scan-fraction (d ∷ ds) n (h, hs) k =
    scan-digit d (spell ds) true true n h ∙ scan-fraction ds (suc n) hs (omega arith)

pub rat-whole :
    (ds cs : List ℕ) (m n : ℕ)
    → All IsDigit ds
    → rat_from m false n (spell ds ++ cs) ≡ rat_from (value_from m ds) false n cs
rat-whole [] cs m n h = refl
rat-whole (d ∷ ds) cs m n (h, hs) =
    rat-digit d (spell ds ++ cs) m false n h ∙ rat-whole ds cs (m * 10 + d) n hs

pub rat-fraction :
    (ds : List ℕ) (m n : ℕ)
    → All IsDigit ds
    → rat_from m true n (spell ds) ≡ (value_from m ds, n + length ds)
rat-fraction [] m n h = ap (λ x. (m, x)) (no_more n)
  where
    no_more : (x : ℕ) → x ≡ x + 0
    no_more x = omega arith
rat-fraction (d ∷ ds) m n (h, hs) =
    rat-digit d (spell ds) m true n h
    ∙ rat-fraction ds (m * 10 + d) (suc n) hs
    ∙ ap (λ x. (value_from (m * 10 + d) ds, x)) (one_more n (length ds))
  where
    one_more : (x y : ℕ) → suc x + y ≡ x + suc y
    one_more x y = omega arith

pub value_from-append :
    (m : ℕ) (a b : List ℕ) → value_from m (a ++ b) ≡ value_from (value_from m a) b
value_from-append m [] b = refl
value_from-append m (d ∷ a) b = value_from-append (m * 10 + d) a b
