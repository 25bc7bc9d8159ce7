-- ===== src/Config.antt =====
-- internal/config/units.go: amounts in basis points and in decimal units. A text is the list of its
-- code points.
pub mod Digits
pub mod Values
pub mod Settings
pub mod Validation
pub mod Decimals
use withdraw_bot.Prelude.{
  ℕ, suc, ℤ, pos, ◌+◌, ◌-◌, ◌*◌, ◌/◌, ◌%◌, ◌^◌, String, Bool, true, false, ◌&&◌, ◌||◌, not, List,
  [], ◌∷◌, ◌++◌, ltb, leb, ltb_ℤ, is_negative, ◌==◌, ◌<>◌, decimal_ℕ, is_space, if◌then◌else◌,
  Option, none, some,
}
use withdraw_bot.Errors.{Error, Result, ok, err, ◌>>◌, fail_if, ◌orelse◌}

unfoldable pub validate_bps : String → ℤ → Option Error
validate_bps name value =
    fail_if (is_negative value || ltb_ℤ (pos 10000) value)
      (Error.message (name <> " must be between 0 and 10000 bps"))

abbrev pub trim_left : List ℕ → List ℕ
trim_left [] = []
trim_left (c ∷ cs) = let rest = trim_left cs in if is_space c then rest else c ∷ cs

abbrev pub trim_right : List ℕ → List ℕ
trim_right [] = []
trim_right (c ∷ cs) = elim (trim_right cs) [
  | [] ↦ (if is_space c then [] else c ∷ [])
  | x ∷ xs ↦ c ∷ x ∷ xs
]

-- `strings.TrimSpace`
abbrev pub trim_space : List ℕ → List ℕ
trim_space text = trim_right (trim_left text)

-- What the loop of `isUnsignedBase10Decimal` tells apart.
pub data Character : Type 0 where
  digit point other : Character

abbrev pub character : ℕ → Character
character c =
    if leb 48 c && leb c 57
    then Character.digit
    else (if c == 46 then Character.point else Character.other)

-- The loop, from the values of its three variables. It reads bytes, of which those of a code point
-- that is not ASCII are refused, as the code point is here.
abbrev pub scan : List ℕ → Bool → Bool → ℕ → Bool
scan [] saw_digit saw_point after = saw_digit && (not saw_point || ltb 0 after)
scan (c ∷ cs) saw_digit saw_point after = elim (character c) [
  | Character.digit ↦ scan cs true saw_point (if saw_point then suc after else after)
  | Character.point ↦ elim (not saw_point && saw_digit) [
    | true ↦ scan cs saw_digit true after
    | false ↦ false
  ]
  | Character.other ↦ false
]

unfoldable pub is_unsigned_base10_decimal : List ℕ → Bool
is_unsigned_base10_decimal text = scan text false false 0

-- `big.Rat.SetString` of such a text: the number that its digits spell, and how many of them stand
-- after the point.
abbrev pub rat_from : ℕ → Bool → ℕ → List ℕ → ℕ × ℕ
rat_from number saw_point after [] = (number, after)
rat_from number saw_point after (c ∷ cs) = elim (character c) [
  | Character.digit ↦
      rat_from (number * 10 + (c - 48)) saw_point (if saw_point then suc after else after) cs
  | _ ↦ rat_from number true after cs
]

abbrev pub too_precise : String → ℕ → Error
too_precise name decimals =
    Error.message (name <> " has more than " <> decimal_ℕ decimals <> " decimal places")

-- The amount times 10 to the power of `decimals`, if that is an integer. It is not negative.
abbrev pub scale : String → ℕ → ℕ × ℕ → Result ℕ
scale name decimals (number, after) =
    if number * 10 ^ decimals % 10 ^ after == 0
    then ok (number * 10 ^ decimals / 10 ^ after)
    else err (too_precise name decimals)

abbrev pub is_blank : List ℕ → Bool
is_blank [] = true
is_blank (_ ∷ _) = false

-- The parser after `strings.TrimSpace`.
unfoldable pub parse_clean : String → List ℕ → ℕ → Result ℕ
unfolding is_unsigned_base10_decimal
parse_clean name clean decimals =
    (fail_if (is_blank clean) (Error.message (name <> " is required"))
      orelse fail_if (not (is_unsigned_base10_decimal clean))
          (Error.message (name <> " must be an unsigned base-10 decimal string")))
    >> scale name decimals (rat_from 0 false 0 clean)

unfoldable pub parse_decimal_units : String → List ℕ → ℕ → Result ℕ
unfolding parse_clean
parse_decimal_units name value decimals = parse_clean name (trim_space value) decimals

unfoldable pub parse_gwei : String → List ℕ → Result ℕ
unfolding parse_decimal_units
parse_gwei name value = parse_decimal_units name value 9
