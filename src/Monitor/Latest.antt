-- ===== src/Monitor/Latest.antt =====
-- internal/monitor/service.go: what `Latest` holds of a module.
use withdraw_bot.Prelude.{Option, some, List, [], ◌∷◌, str_eq, if◌then◌else◌}
use withdraw_bot.Core.{MonitorModuleId, MonitorResult}

-- The last of the results that is under the id, or else the given one.
abbrev pub last_or :
    Option MonitorResult → MonitorModuleId → List MonitorResult → Option MonitorResult
last_or before id [] = before
last_or before id (result ∷ results) =
    last_or (if str_eq id result.module_id then some result else before) id results
