-- ===== src/Config/Validation.antt =====
-- internal/config/config.go: which configurations are accepted.
use withdraw_bot.Prelude.{
  ℕ, ℤ, pos, String, Bool, true, false, Option, none, some, ◌≡◌, ◌↔◌, ◌<ℤ◌, ◌≤ℤ◌, refl, arith,
  leb_ℤ, is_zero, str_eq, codes, ◌<>◌, ◌==◌,
}
use withdraw_bot.Errors.{Error, Result, ok, err, fail_if, ◌orelse◌, ok_inj}
use withdraw_bot.Config.{validate_bps, parse_gwei}
use withdraw_bot.Config.Settings.{
  Config, is_empty, required_text, positive_duration, readable, validate,
}

infixr 4 ◌and◌
abbrev pub ◌and◌ : Type 0 → Type 0 → Type 0
P and Q = P × Q

infixr 3 ◌both◌
-- Two checks that pass, by what each means.
◌both◌ :
    {a b : Option Error} {P Q : Type 0}
    → (a ≡ none) ↔ P
    → (b ≡ none) ↔ Q
    → ((a orelse b) ≡ none) ↔ (P and Q)
◌both◌ {a = none} (to_p, of_p) (to_q, of_q) = (λ h. (to_p refl, to_q h), λ (p, q). of_q q)
◌both◌ {a = some e} (to_p, of_p) (to_q, of_q) = (λ h. cc, λ (p, q). of_p p)

fail_if-eq-none : (test : Bool) (e : Error) → (fail_if test e ≡ none) ↔ (test ≡ false)
fail_if-eq-none true e = (λ h. cc, λ h. cc)
fail_if-eq-none false e = (λ h. refl, λ h. refl)

required_text-eq-none :
    (field text : String) → (required_text field text ≡ none) ↔ (str_eq text "" ≡ false)
required_text-eq-none field text = fail_if-eq-none _ _

positive-eq-none :
    (e : Error) (value : ℤ) → (fail_if (leb_ℤ value (pos 0)) e ≡ none) ↔ (pos 0 <ℤ value)
positive-eq-none e value = ground arith

-- A duration that is read and positive.
abbrev pub IsPositive : Result ℤ → Type 0
IsPositive d = (n : ℤ) × (d ≡ ok n) × (pos 0 <ℤ n)

positive_duration-eq-none :
    (field : String) (d : Result ℤ) → (positive_duration field d ≡ none) ↔ IsPositive d
positive_duration-eq-none field (err e) = (λ h. cc, λ (n, h, p). cc)
positive_duration-eq-none field (ok n) =
    let (to, of) = positive-eq-none (Error.message (field <> " must be positive")) n in
    (λ h. (n, refl, to h), λ (m, h, p). of (ground (arith, ok_inj h)))

-- An amount in gwei that is read.
abbrev pub IsRead : Result ℕ → Type 0
IsRead amount = (n : ℕ) × (amount ≡ ok n)

readable-eq-none : (amount : Result ℕ) → (readable amount ≡ none) ↔ IsRead amount
readable-eq-none (ok n) = (λ h. (n, refl), λ h. refl)
readable-eq-none (err e) = (λ h. cc, λ (n, h). cc)

abbrev pub IsBps : ℤ → Type 0
IsBps value = (pos 0 ≤ℤ value) × (value ≤ℤ pos 10000)

validate_bps-eq-none : (name : String) (value : ℤ) → (validate_bps name value ≡ none) ↔ IsBps value
unfolding validate_bps
validate_bps-eq-none name value = ground arith

-- What the validation asks of a configuration.
module _ (parse_duration : String → Result ℤ) where
  -- An independent description of the accepted configurations.
  abbrev pub IsAccepted : Config → Type 0
  IsAccepted cfg =
      (str_eq cfg.app.monitor_interval "" ≡ false)
      and IsPositive (parse_duration cfg.app.monitor_interval)
      and (str_eq cfg.app.data_dir "" ≡ false)
      and (pos 0 <ℤ cfg.ethereum.chain_id)
      and (str_eq cfg.ethereum.vault_address "" ≡ false)
      and (cfg.ethereum.asset_decimals == 0 ≡ false)
      and (is_zero cfg.telegram.chat_id ≡ false)
      and (is_empty cfg.telegram.allowed_user_ids ≡ false)
      and (str_eq cfg.gas.replacement_timeout "" ≡ false)
      and IsPositive (parse_duration cfg.gas.replacement_timeout)
      and IsBps cfg.gas.gas_limit_buffer_bps
      and IsBps cfg.gas.fee_bump_bps
      and IsRead (parse_gwei "gas.max_fee_per_gas_gwei" (codes cfg.gas.max_fee_per_gas_gwei))
      and IsRead (
          parse_gwei "gas.max_priority_fee_per_gas_gwei"
            (codes cfg.gas.max_priority_fee_per_gas_gwei))

  -- A configuration passes the validation exactly if its intervals are set and positive durations, its
  -- data directory, vault, decimals, chat and allowed users are set, its chain id is positive, its basis
  -- points are within 0 and 10000, and its two fee caps are amounts in gwei.
  pub validate-IsAccepted : (cfg : Config) → (validate parse_duration cfg ≡ none) ↔ IsAccepted cfg
  unfolding validate
  validate-IsAccepted cfg =
      required_text-eq-none "app.monitor_interval" cfg.app.monitor_interval
      both positive_duration-eq-none "app.monitor_interval"
          (parse_duration cfg.app.monitor_interval)
      both required_text-eq-none "app.data_dir" cfg.app.data_dir
      both positive-eq-none (Error.message "ethereum.chain_id must be positive")
          cfg.ethereum.chain_id
      both required_text-eq-none "ethereum.vault_address" cfg.ethereum.vault_address
      both fail_if-eq-none (cfg.ethereum.asset_decimals == 0)
          (Error.message "ethereum.asset_decimals is required")
      both fail_if-eq-none (is_zero cfg.telegram.chat_id)
          (Error.message "telegram.chat_id is required")
      both fail_if-eq-none (is_empty cfg.telegram.allowed_user_ids)
          (Error.message "telegram.allowed_user_ids must not be empty")
      both required_text-eq-none "gas.replacement_timeout" cfg.gas.replacement_timeout
      both positive_duration-eq-none "gas.replacement_timeout"
          (parse_duration cfg.gas.replacement_timeout)
      both validate_bps-eq-none "gas.gas_limit_buffer_bps" cfg.gas.gas_limit_buffer_bps
      both validate_bps-eq-none "gas.fee_bump_bps" cfg.gas.fee_bump_bps
      both readable-eq-none
          (parse_gwei "gas.max_fee_per_gas_gwei" (codes cfg.gas.max_fee_per_gas_gwei))
      both readable-eq-none (
          parse_gwei "gas.max_priority_fee_per_gas_gwei"
            (codes cfg.gas.max_priority_fee_per_gas_gwei))
