-- ===== src/Errors.antt =====
-- The error values of the program: Go's `error`, `errors.New`, `fmt.Errorf` with `%w`,
-- `errors.Join` and `errors.Is`, and the sentinel errors that the packages declare
-- (internal/withdraw, internal/monitor, internal/interactions/telegram, internal/ethereum).
use withdraw_bot.Prelude.{
  ℕ, String, Bool, true, false, ◌||◌, Option, none, some, ◌==◌, ◌≡◌, refl, ◌⊎◌, inl, inr,
}

-- The error variables that are compared by identity.
pub data Sentinel : Type 0 where
  simulation_failed signer_owner_mismatch : Sentinel
  zero_vault vault_client_mismatch zero_owner zero_receiver invalid_shares : Sentinel
  invalid_monitor_module monitor_module_failure monitor_result_handler monitor_storage : Sentinel
  unauthorized_telegram_command : Sentinel

pub data Error : Type 0 where
  -- `errors.New`, `fmt.Errorf` with no `%w`, and the errors of what is not under src/.
  message : String → Error
  sentinel : Sentinel → Error
  -- `fmt.Errorf` with `%w`: the text around, and the wrapped error.
  wrapped : String → Error → Error
  -- `errors.Join` of errors that are not nil.
  joined : Error → Error → Error

-- A result `(value, error)` of which the caller uses one part.
pub data Result {ℓ} (V : Type ℓ) : Type ℓ where
  ok : V → Result V
  err : Error → Result V

-- `if err != nil { return err }` before the rest.
infixl 5 ◌>>◌
abbrev pub ◌>>◌ {ℓ} : {V : Type ℓ} → Option Error → Result V → Result V
none >> rest = rest
some failure >> rest = err failure

-- What a successful return says of the checks before it.
pub >>-eq-ok {ℓ} :
    {V : Type ℓ} (check : Option Error) (rest : Result V) {value : V}
    → (check >> rest) ≡ ok value
    → (check ≡ none) × (rest ≡ ok value)
>>-eq-ok none rest h = (refl, h)
>>-eq-ok (some failure) rest h = cc

-- `value, err := first; if err != nil { return err }` before what uses the value.
infixl 5 ◌>>=◌
abbrev pub ◌>>=◌ {ℓ ℓ'} : {V : Type ℓ} {W : Type ℓ'} → Result V → (V → Result W) → Result W
err failure >>= next = err failure
ok value >>= next = next value

pub >>=-eq-ok {ℓ ℓ'} :
    {V : Type ℓ} {W : Type ℓ'} (first : Result V) (next : V → Result W) {final : W}
    → (first >>= next) ≡ ok final
    → (value : V) × (first ≡ ok value) × (next value ≡ ok final)
>>=-eq-ok (err failure) next h = cc
>>=-eq-ok (ok value) next h = (value, refl, h)

pub ok_inj {ℓ} : {V : Type ℓ} {a b : V} → ok a ≡ ok b → a ≡ b
ok_inj h = cc

-- To split on a computed result and keep the equation.
pub Result-cases {ℓ} :
    {A : Type ℓ} (r : Result A) → ((a : A) × (r ≡ ok a)) ⊎ ((e : Error) × (r ≡ err e))
Result-cases (ok a) = inl (a, refl)
Result-cases (err e) = inr (e, refl)

-- `if condition { return err }`
abbrev pub fail_if : Bool → Error → Option Error
fail_if true e = some e
fail_if false e = none

-- `if err := a; err != nil { return err }` before the checks that follow.
infixr 6 ◌orelse◌
abbrev pub ◌orelse◌ : Option Error → Option Error → Option Error
some e orelse k = some e
none orelse k = k

pub orelse-eq-none : (a b : Option Error) → (a orelse b) ≡ none → (a ≡ none) × (b ≡ none)
orelse-eq-none none b h = (refl, h)
orelse-eq-none (some e) b h = cc

abbrev pub map_err {ℓ} : {A : Type ℓ} → (Error → Error) → Result A → Result A
map_err f (ok a) = ok a
map_err f (err e) = err (f e)

pub map_err-eq-ok {ℓ} :
    {A : Type ℓ} (f : Error → Error) (r : Result A) {a : A} → map_err f r ≡ ok a → r ≡ ok a
map_err-eq-ok f (ok b) h = h
map_err-eq-ok f (err e) h = cc

abbrev pub is_none {ℓ} : {A : Type ℓ} → Option A → Bool
is_none none = true
is_none (some _) = false

-- `errors.Join(before, e)`, where `before` may be nil.
abbrev pub join : Option Error → Error → Error
join none e = e
join (some b) e = joined b e

abbrev pub sentinel_number : Sentinel → ℕ
sentinel_number Sentinel.simulation_failed = 0
sentinel_number Sentinel.signer_owner_mismatch = 1
sentinel_number Sentinel.zero_vault = 2
sentinel_number Sentinel.vault_client_mismatch = 3
sentinel_number Sentinel.zero_owner = 4
sentinel_number Sentinel.zero_receiver = 5
sentinel_number Sentinel.invalid_shares = 6
sentinel_number Sentinel.invalid_monitor_module = 7
sentinel_number Sentinel.monitor_module_failure = 8
sentinel_number Sentinel.monitor_result_handler = 9
sentinel_number Sentinel.monitor_storage = 10
sentinel_number Sentinel.unauthorized_telegram_command = 11

-- `errors.Is`: the sentinel stands somewhere in the tree of the error.
abbrev pub is_error : Error → Sentinel → Bool
is_error (message _) s = false
is_error (sentinel t) s = sentinel_number t == sentinel_number s
is_error (wrapped _ e) s = is_error e s
is_error (joined a b) s = is_error a s || is_error b s

-- `errors.Is(nil, s)` is false.
abbrev pub holds_error : Option Error → Sentinel → Bool
holds_error none s = false
holds_error (some e) s = is_error e s
