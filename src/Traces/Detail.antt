-- ===== src/Traces/Detail.antt =====
-- web/src/pages/traces.tsx: the effect of TraceDetailView that loads the trace, with its flag `cancelled`.
mod Tests
use argus_observability.Prelude.{ℕ, Bool, true, false, Option, none, some, ◌≡◌, refl}
use argus_observability.Api.Types.{TraceDetail}
use argus_observability.Effect.{Handlers, Runs, mounted, Leads}
use argus_observability.Effect.Laws.{Loads, Leads-Shows}
use argus_observability.Traces.{DetailState, detail_started, detail_answered, detail_settled}

-- `hub n` is the answer to the request of run `n`, `none` where it fails. The effect's machine drops the answers of
-- cancelled runs.
unfoldable pub detail_effect : (ℕ → Option TraceDetail) → Handlers DetailState
detail_effect hub = record {
  started = detail_started;
  answered = λ n s. detail_answered false (hub n) s;
  settled = detail_settled false;
}

-- The view shows the trace, or that it failed and no trace.
abbrev pub Found : Option TraceDetail → Option TraceDetail → Bool → Type 0
Found none detail error = (detail ≡ none) × (error ≡ true)
Found (some d) detail error = (detail ≡ some d) × (error ≡ false)

abbrev pub ShowsDetail : (ℕ → Option TraceDetail) → ℕ → DetailState → Type 0
ShowsDetail hub n s = Found (hub n) s.detail s.error

Found-answered :
    (answer : Option TraceDetail) (s : DetailState)
    → s.error ≡ false
    → Found answer (detail_answered false answer s).detail (detail_answered false answer s).error
unfolding detail_answered
Found-answered none s h = (refl, refl)
Found-answered (some d) s h = (refl, h)

loading-answered :
    (answer : Option TraceDetail) (s : DetailState)
    → (detail_answered false answer s).loading ≡ s.loading
unfolding detail_answered
loading-answered none s = refl
loading-answered (some d) s = refl

module _ (hub : ℕ → Option TraceDetail) where
  detail-Loads : Loads (detail_effect hub) (λ s. s.loading) (λ s. s.error ≡ false) (ShowsDetail hub)
  unfolding detail_effect detail_started detail_settled
  detail-Loads = record {
    started_loading = λ s. refl;
    started_begun = λ s. refl;
    answered_loading = λ n s. loading-answered (hub n) s;
    answered_shows = λ n s h. Found-answered (hub n) s h;
    settled_loading = λ s. refl;
    settled_shows = λ n s h. h;
  }

  -- Whatever the order in which the answers come: a view that is not loading shows the trace that the hub sent to
  -- its last request without an error, or no trace and an error if that request failed.
  pub Leads-ShowsDetail :
      (s : DetailState) (w : Runs DetailState)
      → Leads (detail_effect hub) (mounted (detail_effect hub) s) w
      → w.live ≡ true
      → w.page.loading ≡ false
      → ShowsDetail hub w.newest w.page
  Leads-ShowsDetail s w r l e = Leads-Shows detail-Loads r l e
