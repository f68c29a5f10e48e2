-- ===== src/Metrics/Container/Load.antt =====
-- web/src/views/container-metrics.tsx: the effect that loads the nine metrics of the container. React runs it only with
-- a container chosen; without one it ends the run before.
pub mod Laws
mod Tests
use argus_observability.Prelude.{
  ℕ, suc, Bool, true, false, Option, none, some, List, [], ◌∷◌, first, or_default, ◌>>=◌,
}
use argus_observability.Prelude.Text.{Text, lit}
use argus_observability.Api.Types.{SeriesPoint, MetricSeriesResponse}
use argus_observability.Effect.{Handlers}
use argus_observability.Metrics.Container.{SeriesMap, no_series}

-- `r.series?.[0]?.points ?? []`.
unfoldable pub points_of : MetricSeriesResponse → List SeriesPoint
points_of r = elim (first (or_default r.series [])) [ none ↦ [] | some s ↦ or_default s.points [] ]

-- `get(metric)`.
abbrev pub get : (Text → Option MetricSeriesResponse) → Text → Option (List SeriesPoint)
get hub metric = elim (hub metric) [ none ↦ none | some r ↦ some (points_of r) ]

-- `Promise.all`: the nine series, or nothing if a request fails. `hub` answers the request of a metric.
unfoldable pub gather : (Text → Option MetricSeriesResponse) → Option SeriesMap
gather hub = do
  cpu ← get hub (lit "cpu.usage")
  mem ← get hub (lit "memory.usage")
  mem_pct ← get hub (lit "memory.usage_pct")
  http_latency ← get hub (lit "http.duration_ms")
  http_errors ← get hub (lit "http.error_rate")
  net_rx ← get hub (lit "network.rx")
  net_tx ← get hub (lit "network.tx")
  blk_read ← get hub (lit "block.read")
  blk_write ← get hub (lit "block.write")
  some (record {
    cpu = cpu;
    mem = mem;
    mem_pct = mem_pct;
    http_latency = http_latency;
    http_errors = http_errors;
    net_rx = net_rx;
    net_tx = net_tx;
    blk_read = blk_read;
    blk_write = blk_write;
  })

pub record MetricsState : Type 0 where
  pub series : SeriesMap
  pub loading : Bool
  pub error : Option Text
  pub attempt : ℕ

abbrev pub metrics_opened : MetricsState
metrics_opened = record { series = no_series; loading = false; error = none; attempt = 0 }

-- `.then` and `.catch`; `message` is the translation of `metrics.loadError`.
unfoldable pub metrics_answered : Text → Option SeriesMap → MetricsState → MetricsState
metrics_answered message (some s) m = record {
  series = s;
  loading = m.loading;
  error = none;
  attempt = m.attempt;
}
metrics_answered message none m = record m { error = some message }

-- `hub n` answers the requests of run `n`.
unfoldable pub metrics_effect :
    Text → (ℕ → Text → Option MetricSeriesResponse) → Handlers MetricsState
metrics_effect message hub = record {
  started = λ m. record m { loading = true };
  answered = λ n m. metrics_answered message (gather (hub n)) m;
  settled = λ m. record m { loading = false };
}

-- The retry button, which makes the effect run again.
unfoldable pub retry : MetricsState → MetricsState
retry m = record m { attempt = suc m.attempt }
