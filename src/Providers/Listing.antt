-- ===== src/Providers/Listing.antt =====
-- internal/app/providers.go: the list of the thresholds.
use withdraw_bot.Prelude.{
  String, Option, none, some, List, [], ◌∷◌, ◌++◌, lookup_text, decimal, ◌<>◌,
}
use withdraw_bot.Errors.{Result, ok, ◌>>=◌}
use withdraw_bot.Core.{module_share_price_loss, module_withdraw_liquidity, module_vault_state}
use withdraw_bot.Config.Values.{ModuleConfig}
use withdraw_bot.Storage.Thresholds.{StoredOverride, list_threshold_overrides}
use withdraw_bot.Overrides.Values.{
  key_loss_warn_bps, key_loss_urgent_bps, key_idle_warn, key_idle_urgent, key_change_severity,
}
use withdraw_bot.Providers.Database.{Database, Provider}

-- The lines of the static thresholds of one module.
abbrev pub static_lines_of : Provider → String → Option ModuleConfig → List String → List String
static_lines_of provider id none keys = []
static_lines_of provider id (some config) [] = []
static_lines_of provider id (some config) (key ∷ keys) =
    let rest = static_lines_of provider id (some config) keys in
    elim (lookup_text key config) [
      | none ↦ rest
      | some value ↦ (id <> " " <> key <> "=" <> provider.show_value value) ∷ rest
    ]

unfoldable static_threshold_lines : Provider → List String
static_threshold_lines provider =
    static_lines_of provider module_share_price_loss
      (lookup_text module_share_price_loss provider.modules)
      (key_loss_warn_bps ∷ key_loss_urgent_bps ∷ [])
    ++ (static_lines_of provider module_withdraw_liquidity
          (lookup_text module_withdraw_liquidity provider.modules)
          (key_idle_warn ∷ key_idle_urgent ∷ [])
        ++ static_lines_of provider module_vault_state
            (lookup_text module_vault_state provider.modules) (key_change_severity ∷ []))

abbrev pub override_lines : Provider → List StoredOverride → List String
override_lines provider [] = []
override_lines provider (o ∷ os) =
    (o.module_id
      <> " "
      <> o.key
      <> "="
      <> o.value
      <> " by "
      <> decimal o.updated_by_user_id
      <> " at "
      <> provider.format_time o.updated_at)
    ∷ override_lines provider os

abbrev pub or_line : List String → String → List String
or_line [] text = text ∷ []
or_line (line ∷ lines) text = line ∷ lines

-- `strings.Join`
abbrev pub join_with : String → List String → String
join_with separator [] = ""
join_with separator (line ∷ []) = line
join_with separator (line ∷ next ∷ lines) = line <> separator <> join_with separator (next ∷ lines)

-- `List`
unfoldable pub list_thresholds : Provider → Database → Database × Result String
unfolding static_threshold_lines
list_thresholds provider db = (
  db,
  list_threshold_overrides provider.override_faults db.overrides >>= λ overrides. ok (
      join_with "\n" (
        "static thresholds:"
        ∷ (or_line (static_threshold_lines provider) "no static thresholds"
            ++ ("threshold overrides:"
                ∷ or_line (override_lines provider overrides) "no threshold overrides")))),
)
