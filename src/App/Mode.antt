-- ===== src/App/Mode.antt =====
-- internal/app/mode.go, config_check.go and bootstrap.go.
use withdraw_bot.Prelude.{
  ℕ, suc, ℤ, pos, String, Option, none, some, List, [], ◌∷◌, str_eq, decimal, ◌<>◌, if◌then◌else◌,
}
use withdraw_bot.Errors.{Error, Result, ok, err, ◌>>=◌}
use withdraw_bot.Core.{
  MonitorModuleId, module_share_price_loss, module_withdraw_liquidity, module_vault_state,
}
use withdraw_bot.Vault.Reader.{VaultStateSnapshot}
use withdraw_bot.Modules.SharePrice.{bootstrap_share_price}
use withdraw_bot.Modules.VaultState.{VaultStateModule, bootstrap_vault_state}
use withdraw_bot.Overrides.Apply.{MonitorModule}

-- A string type: `other` is a string that is none of the constants.
pub data Mode : Type 0 where
  monitor bootstrap config_check : Mode
  other : String → Mode

unfoldable pub parse_mode : String → Option Mode
parse_mode value =
    if str_eq value "monitor"
    then some Mode.monitor
    else (if str_eq value "bootstrap"
        then some Mode.bootstrap
        else (if str_eq value "config-check" then some Mode.config_check else none))

-- `RunChecks`, on what its checks answer, from the number of the first one.
unfoldable pub run_checks : ℕ → List (Option Error) → Option Error
run_checks number [] = none
run_checks number (none ∷ checks) = run_checks (suc number) checks
run_checks number (some e ∷ checks) =
    some (Error.wrapped ("config check " <> decimal (pos number) <> " failed") e)

-- What a module writes into a new configuration.
pub data Fragment : Type 0 where
  texts : List (String × String) → Fragment
  snapshots : List (String × VaultStateSnapshot) → Fragment

-- A module with its `Bootstrap`. A share price module without a reader panics, which BuildModules
-- does not build.
abbrev pub bootstrap_price : Option (Result (Option ℤ)) → Result Fragment
bootstrap_price none = ok (Fragment.texts [])
bootstrap_price (some answer) = bootstrap_share_price answer >>= λ texts. ok (Fragment.texts texts)

abbrev pub bootstrap_state : VaultStateModule → Result Fragment
bootstrap_state m =
    bootstrap_vault_state m.reader >>= λ snapshots. ok (Fragment.snapshots snapshots)

-- The id and the fragment of a module that BuildModules builds.
unfoldable bootstrap_module : MonitorModule → Result (MonitorModuleId × Fragment)
unfolding bootstrap_share_price bootstrap_vault_state
bootstrap_module (MonitorModule.share_price m) =
    bootstrap_price m.reader >>= λ fragment. ok (module_share_price_loss, fragment)
bootstrap_module (MonitorModule.liquidity m) = ok (module_withdraw_liquidity, Fragment.texts [])
bootstrap_module (MonitorModule.vault_state m) =
    bootstrap_state m >>= λ fragment. ok (module_vault_state, fragment)
bootstrap_module (MonitorModule.foreign id) = ok (id, Fragment.texts [])
bootstrap_module _ = err (Error.message "nil module")

-- `CollectBootstrapFragments`
unfoldable pub collect_bootstrap_fragments :
    List MonitorModule → Result (List (MonitorModuleId × Fragment))
unfolding bootstrap_module
collect_bootstrap_fragments [] = ok []
collect_bootstrap_fragments (m ∷ ms) =
    let rest = collect_bootstrap_fragments ms in
    bootstrap_module m >>= λ fragment. (rest >>= λ fragments. ok (fragment ∷ fragments))
