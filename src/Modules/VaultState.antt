-- ===== src/Modules/VaultState.antt =====
-- internal/monitor/modules/morpho/vault_state.go: the module that compares the vault's state with
-- its baseline.
use withdraw_bot.Prelude.{
  String, Bool, true, false, ◌&&◌, not, Option, none, some, List, [], ◌∷◌, ◌++◌, map, length,
  str_eq, str_ltb, ◌<>◌, decimal_ℕ, if◌then◌else◌,
}
use withdraw_bot.Errors.{Error, Result, ok, err, ◌>>=◌, ◌>>◌, fail_if, ◌orelse◌, is_none}
use withdraw_bot.Core.{
  Time, Severity, MonitorStatus, Finding, MonitorResult, module_vault_state,
  finding_vault_state_diff,
}
use withdraw_bot.Vault.Reader.{VaultStateSnapshot}

pub record StateDiff : Type 0 where
  pub field : String
  pub expected : String
  pub actual : String

-- The collections of a snapshot: `[]string`, `map[string]bool` and `map[string]string`.
pub data Collection : Type 0 where
  strings : List String → Collection
  flags : List (String × Bool) → Collection
  texts : List (String × String) → Collection

-- What the reader answers, if there is one. The severity `other ""` is one that is not set.
pub record VaultStateModule : Type 0 where
  pub reader : Option (Result VaultStateSnapshot)
  pub baseline : VaultStateSnapshot
  pub change_severity : Severity
  pub now : Time

abbrev about_vault_state : String → Error
about_vault_state text = Error.message (module_vault_state <> text)

abbrev pub is_known_severity : Severity → Bool
is_known_severity Severity.warn = true
is_known_severity Severity.urgent = true
is_known_severity (Severity.other text) = str_eq text ""

unfoldable pub validate_vault_state : VaultStateModule → Option Error
validate_vault_state m =
    fail_if (is_none m.reader) (about_vault_state " reader is required")
    orelse fail_if (not (is_known_severity m.change_severity))
        (about_vault_state " change severity must be warn or urgent")

unfoldable pub resolved_severity : VaultStateModule → Severity
resolved_severity m = elim m.change_severity [ Severity.warn ↦ Severity.warn | _ ↦ Severity.urgent ]

abbrev pub monitor_status_for_severity : Severity → MonitorStatus
monitor_status_for_severity Severity.warn = MonitorStatus.warn
monitor_status_for_severity _ = MonitorStatus.urgent

-- `reflect.DeepEqual` of lists, by an equality of their elements.
abbrev pub list_eq {ℓ} : {A : Type ℓ} → (A → A → Bool) → List A → List A → Bool
list_eq eq [] [] = true
list_eq eq [] (_ ∷ _) = false
list_eq eq (_ ∷ _) [] = false
list_eq eq (x ∷ xs) (y ∷ ys) = eq x y && list_eq eq xs ys

abbrev pub bool_eq : Bool → Bool → Bool
bool_eq true b = b
bool_eq false b = not b

unfoldable pub collection_eq : Collection → Collection → Bool
collection_eq (Collection.strings a) (Collection.strings b) = list_eq str_eq a b
collection_eq (Collection.flags a) (Collection.flags b) =
    list_eq (λ x y. str_eq x.0 y.0 && bool_eq x.1 y.1) a b
collection_eq (Collection.texts a) (Collection.texts b) =
    list_eq (λ x y. str_eq x.0 y.0 && str_eq x.1 y.1) a b
collection_eq _ _ = false

abbrev pub is_empty_collection : Collection → Bool
is_empty_collection (Collection.strings []) = true
is_empty_collection (Collection.flags []) = true
is_empty_collection (Collection.texts []) = true
is_empty_collection _ = false

-- A field of two snapshots that is compared.
pub data Comparison : Type 0 where
  string_field : String → String → String → Comparison
  collection_field : String → Collection → Collection → Comparison

-- The fields in the order in which `DiffVaultState` compares them.
abbrev pub compared_fields : VaultStateSnapshot → VaultStateSnapshot → List Comparison
compared_fields e a =
    Comparison.string_field "owner" e.owner a.owner
    ∷ Comparison.string_field "curator" e.curator a.curator
    ∷ Comparison.string_field "receive_shares_gate" e.receive_shares_gate a.receive_shares_gate
    ∷ Comparison.string_field "send_shares_gate" e.send_shares_gate a.send_shares_gate
    ∷ Comparison.string_field "receive_assets_gate" e.receive_assets_gate a.receive_assets_gate
    ∷ Comparison.string_field "send_assets_gate" e.send_assets_gate a.send_assets_gate
    ∷ Comparison.string_field "adapter_registry" e.adapter_registry a.adapter_registry
    ∷ Comparison.string_field "liquidity_adapter" e.liquidity_adapter a.liquidity_adapter
    ∷ Comparison.string_field "liquidity_data_hex" e.liquidity_data_hex a.liquidity_data_hex
    ∷ Comparison.string_field "performance_fee" e.performance_fee a.performance_fee
    ∷ Comparison.string_field "performance_fee_recipient" e.performance_fee_recipient
        a.performance_fee_recipient
    ∷ Comparison.string_field "management_fee" e.management_fee a.management_fee
    ∷ Comparison.string_field "management_fee_recipient" e.management_fee_recipient
        a.management_fee_recipient
    ∷ Comparison.string_field "max_rate" e.max_rate a.max_rate
    ∷ Comparison.collection_field "adapters" (Collection.strings e.adapters)
        (Collection.strings a.adapters)
    ∷ Comparison.collection_field "allocator_roles" (Collection.flags e.allocator_roles)
        (Collection.flags a.allocator_roles)
    ∷ Comparison.collection_field "sentinel_roles" (Collection.flags e.sentinel_roles)
        (Collection.flags a.sentinel_roles)
    ∷ Comparison.collection_field "timelocks" (Collection.texts e.timelocks)
        (Collection.texts a.timelocks)
    ∷ Comparison.collection_field "abdicated" (Collection.flags e.abdicated)
        (Collection.flags a.abdicated)
    ∷ Comparison.collection_field "force_deallocate_penalties"
        (Collection.texts e.force_deallocate_penalties)
        (Collection.texts a.force_deallocate_penalties)
    ∷ []

-- A list of diffs that is sorted by the field stays so.
abbrev pub insert_diff : StateDiff → List StateDiff → List StateDiff
insert_diff d [] = d ∷ []
insert_diff d (x ∷ xs) =
    let below = insert_diff d xs in if str_ltb d.field x.field then d ∷ x ∷ xs else x ∷ below

-- `sort.Slice` by the field. No two diffs have one field, so the sorted order is unique.
abbrev pub sort_diffs : List StateDiff → List StateDiff
sort_diffs [] = []
sort_diffs (x ∷ xs) = insert_diff x (sort_diffs xs)

abbrev pub finding_of : Severity → StateDiff → Finding
finding_of severity diff = record {
  key = finding_vault_state_diff;
  severity = severity;
  message = "vault state changed from baseline";
  evidence = ("field", diff.field) ∷ ("expected", diff.expected) ∷ ("actual", diff.actual) ∷ [];
}

abbrev pub findings_of : Severity → List StateDiff → List Finding
findings_of severity diffs = map (finding_of severity) diffs

unfoldable pub report_vault_state : VaultStateModule → List StateDiff → MonitorResult
unfolding resolved_severity
report_vault_state m diffs = record {
  module_id = module_vault_state;
  status = elim diffs [
    | [] ↦ MonitorStatus.ok
    | _ ∷ _ ↦ monitor_status_for_severity (resolved_severity m)
  ];
  observed_at = m.now;
  metrics = record { key = "diff_count"; value = decimal_ℕ (length diffs); unit = "count" } ∷ [];
  findings = findings_of (resolved_severity m) diffs;
}

-- The reader's snapshot. With no reader the configuration is refused before.
abbrev pub read_vault_state : Option (Result VaultStateSnapshot) → Result VaultStateSnapshot
read_vault_state none = err (Error.message "nil reader")
read_vault_state (some answer) = answer

-- The baseline that a first run records.
unfoldable pub bootstrap_vault_state :
    Option (Result VaultStateSnapshot) → Result (List (String × VaultStateSnapshot))
bootstrap_vault_state none = err (about_vault_state " reader is required")
bootstrap_vault_state (some answer) = do snapshot ← answer; ok (("baseline", snapshot) ∷ [])

-- `stable_json` is the text of a collection, `json.Marshal`.
module _ (stable_json : Collection → String) where
  -- `appendStringDiff` and `appendComparableDiff`
  abbrev pub append_diff : List StateDiff → Comparison → List StateDiff
  append_diff diffs (Comparison.string_field name expected actual) =
      if str_eq expected actual
      then diffs
      else diffs ++ (record { field = name; expected = expected; actual = actual } ∷ [])
  append_diff diffs (Comparison.collection_field name expected actual) =
      if is_empty_collection expected && is_empty_collection actual
      then diffs
      else (if collection_eq expected actual
          then diffs
          else diffs
            ++ (record {
              field = name;
              expected = stable_json expected;
              actual = stable_json actual;
            }
                ∷ []))

  abbrev pub append_diffs : List StateDiff → List Comparison → List StateDiff
  append_diffs diffs [] = diffs
  append_diffs diffs (c ∷ cs) = append_diffs (append_diff diffs c) cs

  unfoldable pub diff_vault_state : VaultStateSnapshot → VaultStateSnapshot → List StateDiff
  diff_vault_state expected actual = sort_diffs (append_diffs [] (compared_fields expected actual))

  unfoldable pub monitor_vault_state : VaultStateModule → Result MonitorResult
  unfolding validate_vault_state diff_vault_state report_vault_state
  monitor_vault_state m = validate_vault_state m >> (do
    actual ← read_vault_state m.reader
    ok (report_vault_state m (diff_vault_state m.baseline actual)))
