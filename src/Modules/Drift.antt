-- ===== src/Modules/Drift.antt =====
-- internal/monitor/modules/morpho/vault_state.go: which changes the module reports.
use withdraw_bot.Prelude.{String, List, [], ◌∷◌, ◌++◌, ◌≡◌, ◌≢◌, ◌⊎◌}
use withdraw_bot.Errors.{ok}
use withdraw_bot.Core.{Severity, MonitorStatus}
use withdraw_bot.Modules.VaultState.{StateDiff, monitor_status_for_severity, Comparison}
use withdraw_bot.Modules.Comparisons.{Unchanged}

abbrev field_of : Comparison → String
field_of (Comparison.string_field name _ _) = name
field_of (Comparison.collection_field name _ _) = name

-- `Picks comparisons diffs`: the diffs are those of the comparisons that changed, in their order.
pub data Picks : List Comparison → List StateDiff → Type 0 where
  ended : Picks [] []
  same :
      {c : Comparison} {cs : List Comparison} {ds : List StateDiff}
      → Unchanged c
      → Picks cs ds
      → Picks (c ∷ cs) ds
  changed :
      {c : Comparison} {d : StateDiff} {cs : List Comparison} {ds : List StateDiff}
      → ¬ Unchanged c
      → d.field ≡ field_of c
      → Picks cs ds
      → Picks (c ∷ cs) (d ∷ ds)

-- What one comparison appends.
abbrev Appends : List StateDiff → Comparison → List StateDiff → Type 0
Appends before c after =
    (Unchanged c × (after ≡ before))
    ⊎ ((d : StateDiff) × (¬ Unchanged c) × (d.field ≡ field_of c) × (after ≡ before ++ (d ∷ [])))

-- The status by the diffs, before or after they are sorted.
abbrev pub Status : Severity → List StateDiff → MonitorStatus → Type 0
Status severity new status =
    ((new ≡ []) × (status ≡ MonitorStatus.ok))
    ⊎ ((new ≢ []) × (status ≡ monitor_status_for_severity severity))
