-- ===== src/Metrics/Container/Load/Tests.antt =====
-- A container whose series of errors fails.
use argus_observability.Prelude.{ℕ, true, Option, none, some, ◌≡◌, refl, if◌then◌else◌}
use argus_observability.Prelude.Text.{Text, lit, text_eq}
use argus_observability.Api.Types.{MetricSeriesResponse}
use argus_observability.Effect.{stays, follows, starts, stops, Runs, mounted, start_run, stop_run}
use argus_observability.Effect.Laws.{Settled}
use argus_observability.Metrics.Container.Load.{
  MetricsState, metrics_opened, metrics_effect, gather,
}
use argus_observability.Metrics.Container.Load.Laws.{metrics-Loads, Leads-SettlesMetrics}

abbrev hub : ℕ → Text → Option MetricSeriesResponse
hub n metric =
    if text_eq metric (lit "http.error_rate")
    then none
    else some (record { metric_name = metric; series = none })

failed_run : gather (hub 1) ≡ none
unfolding gather text_eq lit
failed_run = refl

-- The first run is ended, as no container is chosen, and the second is under way.
abbrev pending : Runs MetricsState
pending = start_run (metrics_effect (lit "failed") hub) (
    stop_run (metrics_effect (lit "failed") hub) (
      start_run (metrics_effect (lit "failed") hub)
        (mounted (metrics_effect (lit "failed") hub) metrics_opened)))

pending_live : pending.live ≡ true
unfolding start_run stop_run
pending_live = refl

Leads-SettlesMetrics_example : Settled (metrics-Loads (lit "failed") hub) pending
Leads-SettlesMetrics_example =
    Leads-SettlesMetrics (lit "failed") hub metrics_opened pending
      (follows (follows (follows stays starts) stops) starts) pending_live
