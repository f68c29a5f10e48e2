-- ===== src/Metrics/Compare/Load/Tests.antt =====
-- Two requests for series whose answers arrive in the wrong order.
use argus_observability.Prelude.{
  ℕ, ◌==◌, Option, none, some, [], ◌∷◌, ◌≡◌, refl, if◌then◌else◌, here, filter, true, false,
}
use argus_observability.Prelude.Text.{lit}
use argus_observability.Api.Types.{ContainerSeries, MetricSeriesResponse}
use argus_observability.Effect.{
  Runs, Leads, stays, follows, starts, answers, settles, mounted, start_run, answer_run, settle_run,
  is_live, others,
}
use argus_observability.Effect.Laws.{Settled}
use argus_observability.Metrics.Compare.{Choice}
use argus_observability.Observability.SavedViews.{area}
use argus_observability.Metrics.Compare.Load.{
  ViewState, view_opened, chosen_series, series_answered, series_effect,
}
use argus_observability.Metrics.Compare.Load.Laws.{effect-Loads, Leads-SettlesSeries}

abbrev choices : ℕ → Choice
choices n = record {
  metric = lit "cpu.usage";
  chart = area;
  selected = [];
  since = lit "1h";
  group = [];
}

abbrev api_series : ContainerSeries
api_series = record { container = lit "api"; entity_uid = lit "docker:api"; points = none }

-- The hub answers the first request with an error and the second with a series.
abbrev hub : ℕ → Option MetricSeriesResponse
hub n =
    if n == 2
    then some (record { metric_name = lit "cpu.usage"; series = some (api_series ∷ []) })
    else none

-- The second answer_run arrives first, and the first is ignored.
abbrev final : Runs ViewState
final = answer_run (series_effect choices hub) 1 (
    settle_run (series_effect choices hub) 2 (
      answer_run (series_effect choices hub) 2 (
        start_run (series_effect choices hub) (
          start_run (series_effect choices hub)
            (mounted (series_effect choices hub) (view_opened []))))))

final_path :
    Leads (series_effect choices hub) (mounted (series_effect choices hub) (view_opened [])) final
unfolding start_run answer_run settle_run is_live others filter
final_path =
    follows
      (follows (follows (follows (follows stays starts) starts) (answers 2 (here refl)))
        (settles 2 (here refl)))
      (answers 1 (here refl))

final_run : final.page.series ≡ api_series ∷ []
unfolding start_run answer_run settle_run is_live others view_opened series_effect series_answered
    chosen_series
final_run = refl

final_live : final.live ≡ true
unfolding start_run answer_run settle_run
final_live = refl

final_still : final.page.loading ≡ false
unfolding start_run answer_run settle_run is_live others view_opened series_effect series_answered
final_still = refl

-- Two requests are under way.
abbrev pending : Runs ViewState
pending =
    start_run (series_effect choices hub)
      (start_run (series_effect choices hub) (mounted (series_effect choices hub) (view_opened [])))

pending_live : pending.live ≡ true
unfolding start_run
pending_live = refl

Leads-SettlesSeries_example : Settled (effect-Loads choices hub) pending
Leads-SettlesSeries_example =
    Leads-SettlesSeries choices hub (view_opened []) pending (follows (follows stays starts) starts)
      pending_live
