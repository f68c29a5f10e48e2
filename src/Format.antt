-- ===== src/Format.antt =====
-- web/src/lib/format.ts, lib/meter.ts, lib/slo.ts and components/metrics/metric-meter.tsx: how values are shown.
-- `number value digits` is `Intl.NumberFormat(locale, …).format`, which the browser does; a value is a fraction.
pub mod Laws
pub mod Ansi
pub mod Cache
mod Tests
use argus_observability.Prelude.{
  ℕ, ◌+◌, ◌*◌, ◌/◌, ◌<◌, Bool, true, false, Option, none, some, List, [], ◌∷◌, ◌++◌, if◌then◌else◌,
  leb, ltb, min,
}
use argus_observability.Prelude.Text.{Text, lit, text_eq}
use argus_observability.Stats.{Fraction}
use argus_observability.Api.Types.{SloDefinition}

abbrev pub whole : ℕ → Fraction
whole n = record { num = n; den = 1 }

-- `value < n`.
abbrev pub below : Fraction → ℕ → Bool
below v n = ltb v.num (n * v.den)

-- The quotient by a whole number.
abbrev pub over : Fraction → ℕ → Fraction
over v n = record { num = v.num; den = v.den * n }

-- A value as it is shown: the number to format, its digits and its unit. `rounds` tells that the number is
-- rounded first.
pub record Shown : Type 0 where
  pub value : Fraction
  pub digits : ℕ
  pub unit : Text
  pub rounds : Bool

unfoldable pub bytes_shown : Fraction → Shown
bytes_shown value =
    if below value 1024
    then record { value = value; digits = 0; unit = lit "B"; rounds = true }
    else if below value (1024 * 1024)
    then record { value = over value 1024; digits = 1; unit = lit "KiB"; rounds = false }
    else if below value (1024 * 1024 * 1024)
    then record {
      value = over (over value 1024) 1024;
      digits = 1;
      unit = lit "MiB";
      rounds = false;
    }
    else record {
      value = over (over (over value 1024) 1024) 1024;
      digits = 2;
      unit = lit "GiB";
      rounds = false;
    }

unfoldable pub duration_shown : Fraction → Shown
duration_shown ms =
    if below ms 1000
    then record { value = ms; digits = 0; unit = lit "ms"; rounds = false }
    else record { value = over ms 1000; digits = 2; unit = lit "s"; rounds = false }

abbrev pub no_break_space : ℕ
no_break_space = 160

module _ (number : Fraction → ℕ → Text) (round : Fraction → Fraction) where
  pub format_percent : Fraction → Text
  format_percent value = number value 1 ++ lit "%"

  -- `${formatNumber(…)}\u00a0${unit}`.
  pub written : Shown → Text
  written s =
      number (if s.rounds then round s.value else s.value) s.digits ++ (no_break_space ∷ s.unit)

  pub format_bytes : Fraction → Text
  format_bytes value = written (bytes_shown value)

  pub format_duration : Fraction → Text
  format_duration ms = written (duration_shown ms)

pub data MeterTone : Type 0 where
  default warning critical : MeterTone

unfoldable pub meter_tone : Fraction → ℕ → ℕ → MeterTone
meter_tone value warn_at critical_at =
    if below value critical_at then (if below value warn_at then default else warning) else critical

-- `Math.min(100, value)`, where `value` is not negative.
unfoldable pub capped : Fraction → Fraction
capped value = if below value 100 then value else whole 100

-- `MetricMeter`: the tone and the width of the bar.
pub record Meter : Type 0 where
  pub tone : MeterTone
  pub width : Fraction

unfoldable pub metric_meter : Fraction → ℕ → ℕ → Meter
metric_meter value warn_at critical_at = record {
  tone = meter_tone (capped value) warn_at critical_at;
  width = capped value;
}

unfoldable pub budget_tone : Fraction → MeterTone
budget_tone pct = if below pct 10 then critical else if below pct 30 then warning else default

unfoldable pub slo_metric : Text → Text
slo_metric sli =
    if text_eq sli (lit "latency_p95") then lit "http.duration_ms" else lit "http.error_rate"

pub slo_metrics_link : (Text → Text) → SloDefinition → Text
slo_metrics_link encode s =
    lit "/metrics?mode=compare&metric="
    ++ (slo_metric s.sli_metric ++ (lit "&service=" ++ encode s.service))
