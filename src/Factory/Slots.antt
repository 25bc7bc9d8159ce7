-- ===== src/Factory/Slots.antt =====
-- internal/morpho/factory.go: which modules BuildModules builds.
use withdraw_bot.Prelude.{
  String, Bool, true, false, Option, none, some, List, [], ◌∷◌, ◌++◌, ◌≡◌, ◌⊎◌, inl, inr, refl, sym,
  arith, All,
}
use withdraw_bot.Errors.{
  Error, Result, ok, err, ◌orelse◌, orelse-eq-none, >>-eq-ok, >>=-eq-ok, ok_inj,
}
use withdraw_bot.Core.{
  MonitorModuleId, module_share_price_loss, module_withdraw_liquidity, module_vault_state,
}
use withdraw_bot.Config.Values.{ModuleConfig, module_enabled, enabled_module_config}
use withdraw_bot.Overrides.Apply.{MonitorModule}
use withdraw_bot.Factory.{
  Setup, is_known_module, refuse_unknown, validate_module_configs, build_enabled, build_configured,
  build_share_price, build_liquidity, build_vault_state, build_modules,
}

-- A configured module says whether it is enabled, and is known if it is.
abbrev pub IsKnown : String × ModuleConfig → Type 0
IsKnown (id, config) =
    (module_enabled config id ≡ ok false)
    ⊎ ((module_enabled config id ≡ ok true) × (is_known_module id ≡ true))

IsKnown-enabled :
    (id : String) (config : ModuleConfig) (enabled : Bool)
    → module_enabled config id ≡ ok enabled
    → refuse_unknown id enabled ≡ none
    → IsKnown (id, config)
IsKnown-enabled id config false h k = inl h
IsKnown-enabled id config true h k = inr (h, ground arith)

validated_entry :
    (id : String) (config : ModuleConfig) (rest : List (String × ModuleConfig))
    (answer : Result Bool)
    → module_enabled config id ≡ answer
    → elim answer as (λ a. Option Error) [
      | err e ↦ some e
      | ok enabled ↦ refuse_unknown id enabled orelse validate_module_configs rest
    ]
      ≡ none
    → IsKnown (id, config) × (validate_module_configs rest ≡ none)
validated_entry id config rest (err e) read h = cc
validated_entry id config rest (ok enabled) read h =
    let (known, below) =
      orelse-eq-none (refuse_unknown id enabled) (validate_module_configs rest) h in
    (IsKnown-enabled id config enabled read known, below)

validate_module_configs-IsKnown :
    (modules : List (String × ModuleConfig))
    → validate_module_configs modules ≡ none
    → All IsKnown modules
unfolding validate_module_configs
validate_module_configs-IsKnown [] h = tt
validate_module_configs-IsKnown ((id, config) ∷ rest) h =
    let (known, below) = validated_entry id config rest (module_enabled config id) refl h in
    (known, validate_module_configs-IsKnown rest below)

-- What one module of the configuration becomes: nothing, if it is not there or not enabled, and
-- otherwise the one module that is built from its configuration.
abbrev pub IsSlot :
    Setup → MonitorModuleId → (ModuleConfig → Result MonitorModule) → List MonitorModule → Type 0
IsSlot setup id build slot =
    ((enabled_module_config setup.modules id ≡ ok none) × (slot ≡ []))
    ⊎ ((config : ModuleConfig) × (m : MonitorModule) × (enabled_module_config setup.modules id
          ≡ ok (some config))
        × (build config ≡ ok m)
        × (slot ≡ (m ∷ [])))

build_enabled-IsSlot :
    (setup : Setup) (id : MonitorModuleId) (build : ModuleConfig → Result MonitorModule)
    (config : Option ModuleConfig) {slot : List MonitorModule}
    → enabled_module_config setup.modules id ≡ ok config
    → build_enabled build config ≡ ok slot
    → IsSlot setup id build slot
build_enabled-IsSlot setup id build none read h = inl (read, sym (ok_inj h))
build_enabled-IsSlot setup id build (some config) read h =
    let (m, built, rest) = >>=-eq-ok (build config) (λ m. ok (m ∷ [])) h in
    inr (config, m, read, built, sym (ok_inj rest))

build_configured-IsSlot :
    (setup : Setup) (id : MonitorModuleId) (build : ModuleConfig → Result MonitorModule)
    {slot : List MonitorModule}
    → build_configured setup.modules id build ≡ ok slot
    → IsSlot setup id build slot
build_configured-IsSlot setup id build h =
    let (config, read, built) =
      >>=-eq-ok (enabled_module_config setup.modules id) (λ c. build_enabled build c) h in
    build_enabled-IsSlot setup id build config read built

-- If the modules are built, then every module of the configuration that is enabled is a known one,
-- and they are the share price, the liquidity and the vault state module, in this order, each of them
-- there exactly if it is configured and enabled, and built from its configuration.
pub build_modules-IsSlot :
    (setup : Setup) {modules : List MonitorModule}
    → build_modules setup ≡ ok modules
    → All IsKnown setup.modules
      × ((prices : List MonitorModule) × (liquidity : List MonitorModule) × (state : List
            MonitorModule)
          × IsSlot setup module_share_price_loss (build_share_price setup) prices
          × IsSlot setup module_withdraw_liquidity (build_liquidity setup) liquidity
          × IsSlot setup module_vault_state (build_vault_state setup) state
          × (modules ≡ prices ++ (liquidity ++ state)))
unfolding build_modules
build_modules-IsSlot setup h =
    let (valid, built) = >>-eq-ok (validate_module_configs setup.modules) _ h in
    let (prices, p, h₁) =
      >>=-eq-ok (build_configured setup.modules module_share_price_loss (build_share_price setup)) _
        built in
    let (liquidity, l, h₂) =
      >>=-eq-ok (build_configured setup.modules module_withdraw_liquidity (build_liquidity setup)) _
        h₁ in
    let (state, s, h₃) =
      >>=-eq-ok (build_configured setup.modules module_vault_state (build_vault_state setup)) _
        h₂ in
    (
      validate_module_configs-IsKnown setup.modules valid,
      (
        prices,
        liquidity,
        state,
        build_configured-IsSlot setup module_share_price_loss (build_share_price setup) p,
        build_configured-IsSlot setup module_withdraw_liquidity (build_liquidity setup) l,
        build_configured-IsSlot setup module_vault_state (build_vault_state setup) s,
        sym (ok_inj h₃),
      ),
    )
