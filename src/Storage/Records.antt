-- ===== src/Storage/Records.antt =====
-- internal/storage/repositories.go: the tables of the monitor results and the withdrawal attempts,
-- which the bot only writes. A time is the text of its layout.
use withdraw_bot.Prelude.{
  ℕ, ℤ, pos, String, Bool, true, false, Option, none, some, List, [], ◌∷◌, ◌++◌, str_eq, ◌<>◌,
  decimal, to_int64, if◌then◌else◌,
}
use withdraw_bot.Errors.{Error, Result, ok, err}
use withdraw_bot.Core.{Hash, Time, MonitorModuleId, MonitorResult, Metric, Finding}
use withdraw_bot.Reports.{monitor_status_text}
use withdraw_bot.Telegram.Types.{status_text}
use withdraw_bot.Withdraw.Types.{WithdrawalAttempt}

pub record MonitorRow : Type 0 where
  pub module_id : String
  pub status : String
  pub observed_at : String
  pub metrics_json : String
  pub findings_json : String
  pub created_at : String

pub record AttemptRow : Type 0 where
  pub id : String
  pub trigger_kind : String
  pub trigger_module_id : String
  pub trigger_finding_key : String
  pub status : String
  pub tx_hash : String
  pub nonce : ℤ
  pub gas_units : ℤ
  pub max_fee_per_gas_wei : Option String
  pub max_priority_fee_per_gas_wei : Option String
  pub expected_asset_units : Option String
  pub simulation_success : ℕ
  pub failure_reason : String
  pub created_at : String
  pub updated_at : String

abbrev pub nullable_big_string : Option ℤ → Option String
nullable_big_string none = none
nullable_big_string (some value) = some (decimal value)

abbrev pub flag : Bool → ℕ
flag true = 1
flag false = 0

abbrev pub has_attempt : String → List AttemptRow → Bool
has_attempt id [] = false
has_attempt id (r ∷ rs) = let below = has_attempt id rs in if str_eq id r.id then true else below

-- `format` is the layout RFC3339Nano, `hash_text` the hexadecimal text of a hash, and `metrics_text`
-- and `findings_text` are `json.Marshal`.
module _ (format : Time → String) (hash_text : Hash → String)
    (metrics_text : List Metric → Result String)
    (findings_text : List Finding → Result String) where
  abbrev pub monitor_row : MonitorResult → Time → String → String → MonitorRow
  monitor_row result created_at metrics findings = record {
    module_id = result.module_id;
    status = monitor_status_text result.status;
    observed_at = format result.observed_at;
    metrics_json = metrics;
    findings_json = findings;
    created_at = format created_at;
  }

  -- What the driver answers to the `INSERT`.
  abbrev pub inserted_result :
      Option Error → MonitorModuleId → MonitorRow → List MonitorRow → Option Error × List MonitorRow
  inserted_result (some e) module_id row table =
      (some (Error.wrapped ("insert monitor result for " <> module_id) e), table)
  inserted_result none module_id row table = (none, table ++ (row ∷ []))

  unfoldable pub insert_monitor_result :
      Option Error → MonitorResult → Time → List MonitorRow → Option Error × List MonitorRow
  insert_monitor_result insert result created_at table = elim (metrics_text result.metrics) [
    | err e ↦ (some (Error.wrapped "encode monitor metrics" e), table)
    | ok metrics ↦ elim (findings_text result.findings) [
      | err e ↦ (some (Error.wrapped "encode monitor findings" e), table)
      | ok findings ↦
          inserted_result insert result.module_id (monitor_row result created_at metrics findings)
            table
    ]
  ]

  -- The nonce and the gas are converted from uint64 to int64.
  abbrev pub attempt_row : WithdrawalAttempt → AttemptRow
  attempt_row attempt = record {
    id = attempt.id;
    trigger_kind = attempt.trigger.kind;
    trigger_module_id = attempt.trigger.module_id;
    trigger_finding_key = attempt.trigger.finding_key;
    status = status_text attempt.status;
    tx_hash = hash_text attempt.tx_hash;
    nonce = to_int64 (pos attempt.nonce);
    gas_units = to_int64 (pos attempt.gas_units);
    max_fee_per_gas_wei = nullable_big_string attempt.fee_caps.max_fee_per_gas;
    max_priority_fee_per_gas_wei = nullable_big_string attempt.fee_caps.max_priority_fee_per_gas;
    expected_asset_units = nullable_big_string attempt.expected_asset_units;
    simulation_success = flag attempt.simulation_success;
    failure_reason = attempt.failure_reason;
    created_at = format attempt.created_at;
    updated_at = format attempt.updated_at;
  }

  -- The id is the primary key: `duplicate` is what the driver answers to one that is there.
  unfoldable pub insert_withdrawal_attempt :
      Option Error → Error → WithdrawalAttempt → List AttemptRow → Option Error × List AttemptRow
  unfolding to_int64
  insert_withdrawal_attempt insert duplicate attempt table = elim insert [
    | some e ↦ (some (Error.wrapped "insert withdrawal attempt" e), table)
    | none ↦
        if has_attempt attempt.id table
        then (some (Error.wrapped "insert withdrawal attempt" duplicate), table)
        else (none, table ++ (attempt_row attempt ∷ []))
  ]
