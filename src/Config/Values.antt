-- ===== src/Config/Values.antt =====
-- internal/config/module_helpers.go: what the configuration of a module holds under a key. A value is
-- what the YAML decoder makes of it.
use withdraw_bot.Prelude.{
  ℕ, zero, suc, ℤ, pos, negsuc, ◌+◌, ◌-◌, ◌*◌, ◌^◌, String, Bool, true, false, Option, none, some,
  List, [], ◌∷◌, ◌==◌, str_eq, leb_ℤ, ltb_ℤ, codes, lookup_text, ◌<>◌, if◌then◌else◌, ◌&&◌,
}
use withdraw_bot.Errors.{Error, Result, ok, err, ◌>>=◌}
use withdraw_bot.Core.{MonitorModuleId}
use withdraw_bot.Config.{Character, character, parse_decimal_units}

pub data Value : Type 0 where
  boolean : Bool → Value
  integer : ℤ → Value
  text : String → Value
  -- A list, a map, a float, an integer above int64, or nothing.
  other : String → Value

-- `map[string]any`; a nil map is the empty one for a reader.
abbrev pub ModuleConfig : Type 0
ModuleConfig = List (String × Value)

-- `fmt.Errorf("%s.%s …", moduleID, key)`
abbrev pub about_field : MonitorModuleId → String → String → Error
about_field module_id key problem = Error.message (module_id <> "." <> key <> problem)

abbrev pub as_enabled : MonitorModuleId → Option Value → Result Bool
as_enabled module_id none = err (Error.message (module_id <> ".enabled is required"))
as_enabled module_id (some (Value.boolean enabled)) = ok enabled
as_enabled module_id (some _) = err (Error.message (module_id <> ".enabled must be a bool"))

unfoldable pub module_enabled : ModuleConfig → MonitorModuleId → Result Bool
module_enabled config module_id = as_enabled module_id (lookup_text "enabled" config)

abbrev pub if_enabled : Bool → ModuleConfig → Option ModuleConfig
if_enabled true config = some config
if_enabled false config = none

abbrev pub when_enabled : MonitorModuleId → Option ModuleConfig → Result (Option ModuleConfig)
when_enabled module_id none = ok none
when_enabled module_id (some config) =
    module_enabled config module_id >>= λ enabled. ok (if_enabled enabled config)

-- The configuration of a module that is there and enabled.
unfoldable pub enabled_module_config :
    List (String × ModuleConfig) → MonitorModuleId → Result (Option ModuleConfig)
unfolding module_enabled
enabled_module_config modules module_id = when_enabled module_id (lookup_text module_id modules)

abbrev pub as_text : MonitorModuleId → String → Option Value → Result String
as_text module_id key none = err (about_field module_id key " is required")
as_text module_id key (some (Value.text value)) =
    if str_eq value "" then err (about_field module_id key " must be a string") else ok value
as_text module_id key (some _) = err (about_field module_id key " must be a string")

unfoldable pub module_string : ModuleConfig → MonitorModuleId → String → Result String
module_string config module_id key = as_text module_id key (lookup_text key config)

abbrev pub as_int64 : MonitorModuleId → String → Option Value → Result ℤ
as_int64 module_id key none = err (about_field module_id key " is required")
as_int64 module_id key (some (Value.integer n)) = ok n
as_int64 module_id key (some _) = err (about_field module_id key " must be an integer")

unfoldable pub module_int64 : ModuleConfig → MonitorModuleId → String → Result ℤ
module_int64 config module_id key = as_int64 module_id key (lookup_text key config)

-- Digits to the end of the text, after a number.
abbrev pub read_digits : ℕ → List ℕ → Option ℕ
read_digits number [] = some number
read_digits number (c ∷ cs) = elim (character c) [
  | Character.digit ↦ read_digits (number * 10 + (c - 48)) cs
  | _ ↦ none
]

abbrev pub read_natural : List ℕ → Option ℕ
read_natural [] = none
read_natural (c ∷ cs) = read_digits 0 (c ∷ cs)

abbrev pub positive : Option ℕ → Option ℤ
positive none = none
positive (some n) = some (pos n)

abbrev pub negative : Option ℕ → Option ℤ
negative none = none
negative (some zero) = some (pos 0)
negative (some (suc n)) = some (negsuc n)

-- `big.Int.SetString(text, 10)`: a sign, if there is one, and at least one digit.
unfoldable pub parse_integer : List ℕ → Option ℤ
parse_integer [] = none
parse_integer (c ∷ cs) =
    if c == 45
    then negative (read_natural cs)
    else (if c == 43 then positive (read_natural cs) else positive (read_natural (c ∷ cs)))

abbrev pub in_int64 : Option ℤ → Option ℤ
in_int64 none = none
in_int64 (some n) = if leb_ℤ (negsuc (2 ^ 63 - 1)) n && ltb_ℤ n (pos (2 ^ 63)) then some n else none

-- `strconv.ParseInt(text, 10, 64)`
unfoldable pub parse_int64 : List ℕ → Option ℤ
unfolding parse_integer
parse_int64 digits = in_int64 (parse_integer digits)

abbrev pub as_integer : MonitorModuleId → String → Option ℤ → Result ℤ
as_integer module_id key none = err (about_field module_id key " must be a string")
as_integer module_id key (some n) = ok n

unfoldable pub module_big_int : ModuleConfig → MonitorModuleId → String → Result ℤ
unfolding module_string parse_integer
module_big_int config module_id key = module_string config module_id key >>= λ value.
    as_integer module_id key (parse_integer (codes value))

unfoldable pub module_decimal_units : ModuleConfig → MonitorModuleId → String → ℕ → Result ℕ
unfolding module_string parse_decimal_units
module_decimal_units config module_id key decimals = module_string config module_id key >>= λ value.
    parse_decimal_units (module_id <> "." <> key) (codes value) decimals

-- `decode` is the way of a value through YAML and JSON into a struct.
unfoldable pub module_struct {ℓ} :
    {A : Type ℓ} → (Value → Result A) → ModuleConfig → MonitorModuleId → String → Result A
module_struct decode config module_id key = elim (lookup_text key config) [
  | none ↦ err (about_field module_id key " is required")
  | some value ↦ decode value
]
