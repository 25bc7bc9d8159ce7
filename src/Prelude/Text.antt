-- ===== src/Prelude/Text.antt =====
-- Native text: the comparison of whole texts, and the decimal print of a number.
use Prim.Native.Nat.{ℕ, zero, suc, ◌/◌, ◌%◌}
use Prim.Native.Char.{code}
use mathlib.Core.List.{List, [], ◌∷◌}
use mathlib.Core.Option.{Option, none, some}
use Prim.Native.String.{String, ◌++◌, compare}
use mathlib.Core.Bool.{Bool}
use text.Mathlib.Text.{◌==◌, is_lt}
use withdraw_bot.Prelude.Tests.{ltb, if◌then◌else◌}
use withdraw_bot.Prelude.Numbers.{ℤ, pos, negsuc}

abbrev pub str_eq : String → String → Bool
str_eq a b = a == b

-- `a < b`, the order of the bytes.
abbrev pub str_ltb : String → String → Bool
str_ltb a b = is_lt (compare a b)

-- The code points of a text. `String` has its own `[]` and `∷`.
abbrev pub codes : String → List ℕ
codes String.[] = []
codes (String.◌∷◌ c s) = code c ∷ codes s

-- The value of a map under a key; the first pair counts.
abbrev pub lookup_text {ℓ} : {A : Type ℓ} → String → List (String × A) → Option A
lookup_text key [] = none
lookup_text key ((k, v) ∷ rest) =
    let below = lookup_text key rest in if str_eq key k then some v else below

infixr 60 ◌<>◌
-- The concatenation of texts.
abbrev pub ◌<>◌ : String → String → String
a <> b = a ++ b

-- The decimal digit `d`, below 10.
abbrev digit : ℕ → String
digit zero = "0"
digit (suc zero) = "1"
digit (suc (suc zero)) = "2"
digit (suc (suc (suc zero))) = "3"
digit (suc (suc (suc (suc zero)))) = "4"
digit (suc (suc (suc (suc (suc zero))))) = "5"
digit (suc (suc (suc (suc (suc (suc zero)))))) = "6"
digit (suc (suc (suc (suc (suc (suc (suc zero))))))) = "7"
digit (suc (suc (suc (suc (suc (suc (suc (suc zero)))))))) = "8"
digit _ = "9"

-- The number of digits is at most the number, so `n` rounds are enough for `n`.
decimal_fuel : ℕ → ℕ → String
decimal_fuel zero n = digit (n % 10)
decimal_fuel (suc f) n =
    let rest = decimal_fuel f (n / 10) in if ltb n 10 then digit n else rest <> digit (n % 10)

unfoldable pub decimal_ℕ : ℕ → String
unfolding decimal_fuel
decimal_ℕ n = decimal_fuel n n

-- `big.Int.String`, and `fmt.Sprint` of an integer.
unfoldable pub decimal : ℤ → String
unfolding decimal_ℕ
decimal (pos n) = decimal_ℕ n
decimal (negsuc n) = "-" <> decimal_ℕ (suc n)
