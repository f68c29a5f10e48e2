-- ===== src/Metrics/Compare/Load/Laws.antt =====
-- What the view shows when its request has settled.
use argus_observability.Prelude.{
  ℕ, true, false, Option, none, some, List, [], ◌≡◌, refl, sym, or_default, filter, arith,
}
use argus_observability.Api.Types.{ContainerSeries, MetricSeriesResponse}
use argus_observability.Effect.{Runs, mounted, Leads}
use argus_observability.Effect.Laws.{Loads, Settled, Leads-Shows, Leads-Settled}
use argus_observability.Metrics.Compare.{Choice}
use argus_observability.Metrics.Compare.Load.{
  ViewState, chosen_series, series_answered, series_effect,
}

-- The series of an answer; a request that fails answers none.
abbrev pub answer_series : Option MetricSeriesResponse → List ContainerSeries
answer_series none = []
answer_series (some resp) = or_default resp.series []

-- The view shows the answer to run `n`.
abbrev pub ShowsSeries : (ℕ → Choice) → (ℕ → Option MetricSeriesResponse) → ℕ → ViewState → Type 0
ShowsSeries choices hub n s = s.series ≡ chosen_series (choices n) (answer_series (hub n))

chosen_series_nil : (c : Choice) → chosen_series c [] ≡ []
unfolding chosen_series filter
chosen_series_nil c = ground arith

series-answered :
    (c : Choice) (answer : Option MetricSeriesResponse) (s : ViewState)
    → ((series_answered c answer s).series ≡ chosen_series c (answer_series answer))
      × ((series_answered c answer s).loading ≡ s.loading)
unfolding series_answered
series-answered c (some resp) s = (refl, refl)
series-answered c none s = (sym (chosen_series_nil c), refl)

module _ (choices : ℕ → Choice) (hub : ℕ → Option MetricSeriesResponse) where
  pub effect-Loads :
      Loads (series_effect choices hub) (λ s. s.loading) (λ s. Unit {0}) (ShowsSeries choices hub)
  unfolding series_effect
  effect-Loads = record {
    started_loading = λ s. refl;
    started_begun = λ s. tt;
    answered_loading = λ n s. (series-answered (choices n) (hub n) s).1;
    answered_shows = λ n s b. (series-answered (choices n) (hub n) s).0;
    settled_loading = λ s. refl;
    settled_shows = λ n s h. h;
  }

  -- Whatever the order in which the answers come: a view that is not loading shows the series that the hub sent to
  -- its last request, those of the selected containers where no group is chosen, and none if it failed.
  pub Leads-ShowsSeries :
      (s : ViewState) (w : Runs ViewState)
      → Leads (series_effect choices hub) (mounted (series_effect choices hub) s) w
      → w.live ≡ true
      → w.page.loading ≡ false
      → ShowsSeries choices hub w.newest w.page
  Leads-ShowsSeries s w r l e = Leads-Shows effect-Loads r l e

  -- From each state of the view, the answer to the last request and its `finally` lead to a state that is not
  -- loading and shows that answer.
  pub Leads-SettlesSeries :
      (s : ViewState) (w : Runs ViewState)
      → Leads (series_effect choices hub) (mounted (series_effect choices hub) s) w
      → w.live ≡ true
      → Settled effect-Loads w
  Leads-SettlesSeries s w r l = Leads-Settled effect-Loads r l
