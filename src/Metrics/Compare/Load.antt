-- ===== src/Metrics/Compare/Load.antt =====
-- web/src/views/metric-compare.tsx: the state of the view: the catalogue, the series, whose request is the effect with
-- the flag `cancelled`, and the saved views.
pub mod Laws
mod Tests
use argus_observability.Prelude.{
  ℕ, Bool, true, false, not, ◌&&◌, ◌||◌, Option, none, some, List, [], ◌∷◌, filter, length, ◌==◌,
  if◌then◌else◌, or_default,
}
use argus_observability.Prelude.Text.{Text, is_empty, trim, has_text}
use argus_observability.Query.{Params}
use argus_observability.Api.Types.{ContainerSeries, MetricCatalogEntry, MetricSeriesResponse}
use argus_observability.Observability.SavedViews.{
  SavedView, Stored, load_saved_views, save_view, delete_view,
}
use argus_observability.Effect.{Handlers}
use argus_observability.Metrics.Compare.{Choice, series_container, view_to_save}

pub record ViewState : Type 0 where
  pub catalog : List MetricCatalogEntry
  pub series : List ContainerSeries
  pub loading : Bool
  pub view_name : Text
  pub saved_views : List SavedView

-- The state at the first render; the saved views are those of the store.
unfoldable pub view_opened : List SavedView → ViewState
view_opened views = record {
  catalog = [];
  series = [];
  loading = false;
  view_name = [];
  saved_views = views;
}

-- `.then` and `.catch` of the catalogue.
unfoldable pub catalog_answered : Option (List MetricCatalogEntry) → ViewState → ViewState
catalog_answered answer s = record s { catalog = or_default answer [] }

-- The series that an answer makes the view show: without a group, those of the selected containers.
unfoldable pub chosen_series : Choice → List ContainerSeries → List ContainerSeries
chosen_series c series =
    if is_empty c.group && not (length c.selected == 0)
    then filter (λ x. has_text c.selected x.container || has_text c.selected (series_container x))
        series
    else series

unfoldable pub series_answered : Choice → Option MetricSeriesResponse → ViewState → ViewState
unfolding chosen_series
series_answered c (some resp) s = record s { series = chosen_series c (or_default resp.series []) }
series_answered c none s = record s { series = [] }

-- The effect: `choices n` is what run `n` was started for, `hub n` the answer to its request.
unfoldable pub series_effect : (ℕ → Choice) → (ℕ → Option MetricSeriesResponse) → Handlers ViewState
series_effect choices hub = record {
  started = λ s. record s { loading = true };
  answered = λ n s. series_answered (choices n) (hub n) s;
  settled = λ s. record s { loading = false };
}

module _ {Raw : Type 0} (json : Stored Raw) where
  -- `handleSaveView`: the store and the state.
  unfoldable pub handle_save_view :
      Text → Text → Params → Option Raw × ViewState → Option Raw × ViewState
  unfolding view_to_save
  handle_save_view id now url (store, s) = elim (view_to_save id now s.view_name url) [
    | none ↦ (store, s)
    | some view ↦
        let store' = save_view json view store in
        (store', record s { saved_views = load_saved_views json store'; view_name = [] })
  ]

  -- The button that deletes a view.
  unfoldable pub handle_delete_view : Text → Option Raw × ViewState → Option Raw × ViewState
  handle_delete_view id (store, s) =
      let store' = delete_view json id store in
      (store', record s { saved_views = load_saved_views json store' })
