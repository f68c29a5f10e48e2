-- ===== src/Metrics/Container/Load/Laws.antt =====
-- What the view of a container shows when its requests have settled.
use argus_observability.Prelude.{
  ℕ, Bool, true, not, Option, none, some, is_some, any, List, [], ◌∷◌, ◌≡◌, ◌⊎◌, inl, inr, refl,
  arith, All, Option-cases,
}
use argus_observability.Prelude.Text.{Text, lit}
use argus_observability.Api.Types.{SeriesPoint, MetricSeriesResponse}
use argus_observability.Effect.{Runs, mounted, Leads}
use argus_observability.Effect.Laws.{Loads, Settled, Leads-Settled}
use argus_observability.Metrics.Container.{SeriesMap, no_series}
use argus_observability.Metrics.Container.Load.{
  get, gather, MetricsState, metrics_answered, metrics_effect,
}

-- The metrics that the view asks for, with the series that each one fills.
abbrev fields : SeriesMap → List (Text × List SeriesPoint)
fields s =
    (lit "cpu.usage", s.cpu)
    ∷ (lit "memory.usage", s.mem)
    ∷ (lit "memory.usage_pct", s.mem_pct)
    ∷ (lit "http.duration_ms", s.http_latency)
    ∷ (lit "http.error_rate", s.http_errors)
    ∷ (lit "network.rx", s.net_rx)
    ∷ (lit "network.tx", s.net_tx)
    ∷ (lit "block.read", s.blk_read)
    ∷ (lit "block.write", s.blk_write)
    ∷ []

-- Some metric that the view asks for is not answered.
abbrev misses : (Text → Option MetricSeriesResponse) → Bool
misses hub = any (λ f. not (is_some (get hub f.0))) (fields no_series)

-- What the view shows of the answers: the points of each metric in its place without an error, or the error, where
-- some metric is not answered.
abbrev pub Outcome : Text → (Text → Option MetricSeriesResponse) → SeriesMap → Option Text → Type 0
Outcome message hub series error =
    (All (λ f. get hub f.0 ≡ some f.1) (fields series) × (error ≡ none))
    ⊎ ((misses hub ≡ true) × (error ≡ some message))

abbrev pub ShowsMetrics :
    Text → (ℕ → Text → Option MetricSeriesResponse) → ℕ → MetricsState → Type 0
ShowsMetrics message hub n m = Outcome message (hub n) m.series m.error

gathered :
    (hub : Text → Option MetricSeriesResponse) (s : SeriesMap)
    → gather hub ≡ some s
    → All (λ f. get hub f.0 ≡ some f.1) (fields s)
unfolding gather
gathered hub s h = ground arith

missed : (hub : Text → Option MetricSeriesResponse) → gather hub ≡ none → misses hub ≡ true
unfolding gather any
missed hub h = ground arith

Outcome-answered :
    (message : Text) (hub : Text → Option MetricSeriesResponse) (m : MetricsState)
    → Outcome message hub
        (metrics_answered message (gather hub) m).series
        (metrics_answered message (gather hub) m).error
unfolding metrics_answered
Outcome-answered message hub m = elim (Option-cases (gather hub)) [
  | inl e ↦ rw e (inr (missed hub e, refl))
  | inr (s, e) ↦ rw e (inl (gathered hub s e, refl))
]

loading-answered :
    (message : Text) (answer : Option SeriesMap) (m : MetricsState)
    → (metrics_answered message answer m).loading ≡ m.loading
unfolding metrics_answered
loading-answered message none m = refl
loading-answered message (some s) m = refl

module _ (message : Text) (hub : ℕ → Text → Option MetricSeriesResponse) where
  pub metrics-Loads :
      Loads (metrics_effect message hub) (λ m. m.loading) (λ m. Unit {0}) (ShowsMetrics message hub)
  unfolding metrics_effect
  metrics-Loads = record {
    started_loading = λ m. refl;
    started_begun = λ m. tt;
    answered_loading = λ n m. loading-answered message (gather (hub n)) m;
    answered_shows = λ n m b. Outcome-answered message (hub n) m;
    settled_loading = λ m. refl;
    settled_shows = λ n m h. h;
  }

  -- From each state of the view with a container chosen, whatever answers came before, the answers to the last
  -- requests lead to a state that is not loading and shows, without an error, the points of each of the nine metrics
  -- in its place, or that shows the error, where the request of one of the nine failed.
  pub Leads-SettlesMetrics :
      (m : MetricsState) (w : Runs MetricsState)
      → Leads (metrics_effect message hub) (mounted (metrics_effect message hub) m) w
      → w.live ≡ true
      → Settled metrics-Loads w
  Leads-SettlesMetrics m w r l = Leads-Settled metrics-Loads r l
