-- ===== src/Reports.antt =====
-- internal/reports/report.go: the text of the statistics. A map is the list of its keys, all
-- different, with their values, in the order in which Go hands them out.
pub mod Determinism
use withdraw_bot.Prelude.{String, List, [], ◌∷◌, ◌<>◌, sort_keys, trim_text}
use withdraw_bot.Core.{
  MonitorModuleId, MonitorStatus, Severity, Metric, Finding, MonitorResult, worst_known_status,
}

abbrev pub monitor_status_text : MonitorStatus → String
monitor_status_text MonitorStatus.ok = "OK"
monitor_status_text MonitorStatus.warn = "WARN"
monitor_status_text MonitorStatus.urgent = "URGENT"
monitor_status_text MonitorStatus.unknown = "UNKNOWN"
monitor_status_text (MonitorStatus.other text) = text

abbrev pub severity_text : Severity → String
severity_text Severity.warn = "warn"
severity_text Severity.urgent = "urgent"
severity_text (Severity.other text) = text

abbrev pub statuses_of : List (MonitorModuleId × MonitorResult) → List MonitorStatus
statuses_of [] = []
statuses_of ((id, result) ∷ rest) = result.status ∷ statuses_of rest

abbrev pub metric_lines : List Metric → String
metric_lines [] = ""
metric_lines (m ∷ ms) = "- " <> m.key <> ": " <> m.value <> " " <> m.unit <> "\n" <> metric_lines ms

abbrev pub finding_lines : List Finding → String
finding_lines [] = ""
finding_lines (f ∷ fs) =
    "- " <> severity_text f.severity <> ": " <> f.message <> "\n" <> finding_lines fs

-- The loop over the sorted keys, with the result of each.
abbrev pub result_sections : List (MonitorModuleId × MonitorResult) → String
result_sections [] = ""
result_sections ((key, result) ∷ rest) =
    "\n"
    <> key
    <> ": "
    <> monitor_status_text result.status
    <> "\n"
    <> metric_lines result.metrics
    <> finding_lines result.findings
    <> result_sections rest

-- `RenderStats`
unfoldable pub render_stats : List (MonitorModuleId × MonitorResult) → String
unfolding sort_keys
render_stats results = trim_text (
    "Status: "
    <> monitor_status_text (worst_known_status (statuses_of results))
    <> "\n"
    <> result_sections (sort_keys results))
