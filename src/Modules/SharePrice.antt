-- ===== src/Modules/SharePrice.antt =====
-- internal/monitor/modules/morpho/share_price.go: the module that watches the price of a share.
use withdraw_bot.Prelude.{
  ℤ, pos, String, Bool, false, ◌||◌, not, Option, none, some, List, [], ◌∷◌, is_positive, ltb_ℤ,
  leb_ℤ, ◌-ℤ◌, ◌*ℤ◌, div_ℤ, to_int64, decimal, ◌<>◌, if◌then◌else◌,
}
use withdraw_bot.Errors.{Error, Result, ok, err, ◌>>=◌, ◌>>◌, fail_if, ◌orelse◌, is_none}
use withdraw_bot.Core.{
  Time, Severity, MonitorStatus, Finding, MonitorResult, module_share_price_loss,
  finding_share_price_loss,
}

-- `reader` is what the reader answers in one call, if there is one; the price may be nil. `now` is
-- what the clock shows.
pub record SharePriceModule : Type 0 where
  pub baseline_share_price : Option ℤ
  pub previous_share_price : Option ℤ
  pub warn_bps : ℤ
  pub urgent_bps : ℤ
  pub reader : Option (Result (Option ℤ))
  pub now : Time

abbrev pub is_positive_price : Option ℤ → Bool
is_positive_price none = false
is_positive_price (some price) = is_positive price

abbrev about_share_price : String → Error
about_share_price text = Error.message (module_share_price_loss <> text)

unfoldable pub validate_share_price : SharePriceModule → Option Error
validate_share_price m =
    fail_if (not (is_positive_price m.baseline_share_price))
      (about_share_price " baseline_share_price_asset_units must be positive")
    orelse fail_if (leb_ℤ m.warn_bps (pos 0)) (about_share_price " warn threshold must be positive")
    orelse fail_if (leb_ℤ m.urgent_bps (pos 0))
        (about_share_price " urgent threshold must be positive")
    orelse fail_if (ltb_ℤ m.urgent_bps m.warn_bps)
        (about_share_price " warn threshold must be less than or equal to urgent threshold")
    orelse fail_if (is_none m.reader) (about_share_price " reader is required")

-- The loss from the reference price, in basis points.
unfoldable pub loss_bps : ℤ → ℤ → ℤ
loss_bps reference current =
    if leb_ℤ reference current
    then pos 0
    else to_int64 (div_ℤ ((reference -ℤ current) *ℤ pos 10000) reference)

-- The loss from a price that may be missing.
unfoldable pub loss_from : Option ℤ → ℤ → ℤ
unfolding loss_bps
loss_from none current = pos 0
loss_from (some reference) current =
    if is_positive reference then loss_bps reference current else pos 0

abbrev pub share_price_finding : Severity → String → ℤ → ℤ → Finding
share_price_finding severity text baseline_loss previous_loss = record {
  key = finding_share_price_loss;
  severity = severity;
  message = text;
  evidence =
      ("baseline_loss_bps", decimal baseline_loss)
      ∷ ("previous_loss_bps", decimal previous_loss)
      ∷ [];
}

-- The status and the findings for the two losses.
unfoldable pub rate_losses : SharePriceModule → ℤ → ℤ → MonitorStatus × List Finding
rate_losses m baseline_loss previous_loss =
    if leb_ℤ m.urgent_bps baseline_loss || leb_ℤ m.urgent_bps previous_loss
    then (
      MonitorStatus.urgent,
      share_price_finding Severity.urgent "share price loss crossed urgent threshold" baseline_loss
            previous_loss
          ∷ [],
    )
    else (if leb_ℤ m.warn_bps baseline_loss || leb_ℤ m.warn_bps previous_loss
        then (
          MonitorStatus.warn,
          share_price_finding Severity.warn "share price loss crossed warn threshold" baseline_loss
                previous_loss
              ∷ [],
        )
        else (MonitorStatus.ok, []))

-- The result for the current price.
unfoldable pub report_price : SharePriceModule → ℤ → MonitorResult
unfolding loss_from rate_losses
report_price m current =
    let (status, findings) =
      rate_losses m (loss_from m.baseline_share_price current)
        (loss_from m.previous_share_price current) in
    record {
      module_id = module_share_price_loss;
      status = status;
      observed_at = m.now;
      metrics =
          record { key = "share_price_asset_units"; value = decimal current; unit = "asset_units" }
          ∷ [];
      findings = findings;
    }

-- The reader's price, if it is positive. With no reader the configuration is refused before.
abbrev pub read_price : Option (Result (Option ℤ)) → Result ℤ
read_price none = err (Error.message "nil reader")
read_price (some (err e)) = err e
read_price (some (ok none)) = err (about_share_price " current share price must be positive")
read_price (some (ok (some price))) =
    if is_positive price
    then ok price
    else err (about_share_price " current share price must be positive")

-- A baseline that is nil is refused before.
unfoldable pub monitor_share_price : SharePriceModule → Result MonitorResult
unfolding validate_share_price report_price
monitor_share_price m =
    validate_share_price m >> (do current ← read_price m.reader; ok (report_price m current))

-- The baseline that a first run records.
unfoldable pub bootstrap_share_price : Result (Option ℤ) → Result (List (String × String))
bootstrap_share_price (err e) = err e
bootstrap_share_price (ok none) = ok (("baseline_share_price_asset_units", "<nil>") ∷ [])
bootstrap_share_price (ok (some price)) =
    ok (("baseline_share_price_asset_units", decimal price) ∷ [])
