-- ===== src/Core.antt =====
-- internal/core: the identifiers (ids.go), the statuses (status.go) and the values that the
-- components exchange (types.go). `Clone` (clone.go) is the identity here, since values are
-- immutable.
pub mod Status
use withdraw_bot.Prelude.{ℕ, ℤ, String, Bool, true, false, Option, List, [], ◌∷◌, str_eq}

-- A 20-byte address, as the number that it spells; `common.Address{}` is 0.
abbrev pub Address : Type 0
Address = ℕ

-- A 32-byte hash, as a number; `common.Hash{}` is 0.
abbrev pub Hash : Type 0
Hash = ℕ

-- A `time.Time`, in nanoseconds from a fixed instant.
abbrev pub Time : Type 0
Time = ℤ

abbrev pub MonitorModuleId : Type 0
MonitorModuleId = String

abbrev pub EventType : Type 0
EventType = String

abbrev pub CommandName : Type 0
CommandName = String

abbrev pub FindingKey : Type 0
FindingKey = String

abbrev pub module_share_price_loss : MonitorModuleId
module_share_price_loss = "share_price_loss"

abbrev pub module_withdraw_liquidity : MonitorModuleId
module_withdraw_liquidity = "withdraw_liquidity"

abbrev pub module_vault_state : MonitorModuleId
module_vault_state = "vault_state_baseline"

abbrev pub finding_share_price_loss : FindingKey
finding_share_price_loss = "share_price_loss"

abbrev pub finding_idle_liquidity : FindingKey
finding_idle_liquidity = "idle_liquidity"

abbrev pub finding_exit_simulation : FindingKey
finding_exit_simulation = "exit_simulation"

abbrev pub finding_vault_state_diff : FindingKey
finding_vault_state_diff = "vault_state_diff"

abbrev pub finding_stale_data : FindingKey
finding_stale_data = "stale_data"

abbrev pub event_info : EventType
event_info = "info"

abbrev pub event_warning : EventType
event_warning = "warning"

abbrev pub event_error : EventType
event_error = "error"

abbrev pub event_security : EventType
event_security = "security"

abbrev pub event_withdrawal : EventType
event_withdrawal = "withdrawal"

abbrev pub command_stats : CommandName
command_stats = "/stats"

abbrev pub command_withdraw : CommandName
command_withdraw = "/withdraw"

abbrev pub command_confirm : CommandName
command_confirm = "/confirm"

abbrev pub command_thresholds : CommandName
command_thresholds = "/thresholds"

abbrev pub command_threshold_set : CommandName
command_threshold_set = "/threshold"

abbrev pub command_logs : CommandName
command_logs = "/logs"

abbrev pub command_help : CommandName
command_help = "/help"

pub record ThresholdOverride : Type 0 where
  pub module_id : String
  pub key : String
  pub value : String

-- A string type in the source: `other` is a string that is none of the constants.
pub data Severity : Type 0 where
  warn urgent : Severity
  other : String → Severity

-- A string type in the source: `other` is a string that is none of the constants.
pub data MonitorStatus : Type 0 where
  ok warn urgent unknown : MonitorStatus
  other : String → MonitorStatus

abbrev pub is_urgent : Severity → Bool
is_urgent Severity.urgent = true
is_urgent _ = false

pub record Metric : Type 0 where
  pub key : String
  pub value : String
  pub unit : String

pub record Finding : Type 0 where
  pub key : FindingKey
  pub severity : Severity
  pub message : String
  pub evidence : List (String × String)

pub record MonitorResult : Type 0 where
  pub module_id : MonitorModuleId
  pub status : MonitorStatus
  pub observed_at : Time
  pub metrics : List Metric
  pub findings : List Finding

pub record PositionSnapshot : Type 0 where
  pub vault : Address
  pub owner : Address
  pub receiver : Address
  pub share_balance : Option ℤ
  pub asset_symbol : String
  pub asset_decimals : ℕ
  pub observed_at : Time

pub record FullExitRequest : Type 0 where
  pub vault : Address
  pub owner : Address
  pub receiver : Address
  pub shares : Option ℤ

pub record TxCandidate : Type 0 where
  pub to : Address
  pub payload : List ℕ
  pub value : Option ℤ

pub record FullExitSimulation : Type 0 where
  pub success : Bool
  pub expected_asset_units : Option ℤ
  pub gas_units : ℕ
  pub revert_reason : String

-- The loop of `WorstKnownStatus`, from the values of `worst` and `seenKnown`.
unfoldable pub worst_from : MonitorStatus → Bool → List MonitorStatus → MonitorStatus
worst_from worst true [] = worst
worst_from worst false [] = MonitorStatus.unknown
worst_from worst seen (MonitorStatus.urgent ∷ rest) = MonitorStatus.urgent
worst_from worst seen (MonitorStatus.warn ∷ rest) = worst_from MonitorStatus.warn true rest
worst_from worst seen (MonitorStatus.ok ∷ rest) = worst_from worst true rest
worst_from worst seen (MonitorStatus.unknown ∷ rest) = worst_from worst seen rest
worst_from worst seen (MonitorStatus.other _ ∷ rest) = worst_from worst seen rest

unfoldable pub worst_known_status : List MonitorStatus → MonitorStatus
unfolding worst_from
worst_known_status statuses = worst_from MonitorStatus.ok false statuses
