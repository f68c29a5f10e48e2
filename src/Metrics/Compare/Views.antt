-- ===== src/Metrics/Compare/Views.antt =====
-- A view that is saved and applied.
use argus_observability.Prelude.{
  false, Option, none, some, List, [], ◌∷◌, ◌≡◌, refl, arith, All, Bool-cases, inl, inr,
  if◌then◌else◌,
}
use argus_observability.Prelude.Text.{Text, lit, text_eq, is_empty, trim, join}
use argus_observability.Query.{Params, get, query_value}
use argus_observability.Query.Laws.{get-patch, patched, written, read_written}
use argus_observability.Observability.SavedViews.{SavedView, ChartType, area, line}
use argus_observability.Metrics.Compare.{choice_of, view_to_save, apply_view, chart_text}
use argus_observability.Metrics.Compare.Laws.{IsName, selected_of-join, selected_of-IsName}

-- The entries that `apply_view` patches.
abbrev entries : SavedView → List (Text × Option Text)
entries view =
    (lit "metric", some view.metric)
    ∷ (lit "since", some view.since)
    ∷ (lit "containers", some (join (lit ",") view.containers))
    ∷ (lit "chart", some (chart_text view.chart_type))
    ∷ (lit "group", none)
    ∷ []

read_entry :
    (view : SavedView) (url : Params) (key v d : Text)
    → ((old : Option Text) → patched [] key (entries view) old ≡ written [] key (some v))
    → query_value key d (apply_view view url) ≡ (if is_empty v then d else v)
unfolding query_value apply_view
read_entry view url key v d h =
    rw (get-patch key (entries view) [] url, h (get key url), read_written key v d) refl

read_metric :
    (view : SavedView) (url : Params) (d : Text)
    → query_value (lit "metric") d (apply_view view url)
      ≡ (if is_empty view.metric then d else view.metric)
unfolding text_eq lit
read_metric view url d = read_entry view url (lit "metric") view.metric d (λ old. refl)

read_since :
    (view : SavedView) (url : Params) (d : Text)
    → query_value (lit "since") d (apply_view view url)
      ≡ (if is_empty view.since then d else view.since)
unfolding text_eq lit
read_since view url d = read_entry view url (lit "since") view.since d (λ old. refl)

read_containers :
    (view : SavedView) (url : Params)
    → query_value (lit "containers") [] (apply_view view url) ≡ join (lit ",") view.containers
unfolding text_eq lit
read_containers view url =
    let h =
      read_entry view url (lit "containers") (join (lit ",") view.containers) [] (λ old. refl) in
    ground (arith, h)

chart_back :
    (c : ChartType) (d : Text)
    → (if text_eq (if is_empty (chart_text c) then d else chart_text c) (lit "line")
        then line
        else area)
      ≡ c
unfolding text_eq lit
chart_back area d = refl
chart_back line d = refl

read_chart :
    (view : SavedView) (url : Params) (d : Text)
    → query_value (lit "chart") d (apply_view view url)
      ≡ (if is_empty (chart_text view.chart_type) then d else chart_text view.chart_type)
unfolding text_eq lit
read_chart view url d =
    read_entry view url (lit "chart") (chart_text view.chart_type) d (λ old. refl)

read_group :
    (view : SavedView) (url : Params) → query_value (lit "group") [] (apply_view view url) ≡ []
unfolding query_value apply_view text_eq lit
read_group view url = rw (get-patch (lit "group") (entries view) [] url) refl

-- The choice after a view is applied.
choice-apply_view :
    (view : SavedView) (url : Params)
    → is_empty view.metric ≡ false
    → is_empty view.since ≡ false
    → All IsName view.containers
    → choice_of (apply_view view url) ≡ record {
      metric = view.metric;
      chart = view.chart_type;
      selected = view.containers;
      since = view.since;
      group = [];
    }
unfolding choice_of
choice-apply_view view url m s h =
    rw
      (
        read_metric view url (lit "memory.usage_pct"),
        read_since view url (lit "1h"),
        read_containers view url,
        read_chart view url (lit "area"),
        read_group view url,
        m,
        s,
        chart_back view.chart_type (lit "area"),
        selected_of-join view.containers h,
      )
      refl

saved_fields :
    (id now name : Text) (url : Params) {view : SavedView}
    → view_to_save id now name url ≡ some view
    → view ≡ record {
      id = id;
      name = trim name;
      metric = (choice_of url).metric;
      containers = (choice_of url).selected;
      since = (choice_of url).since;
      chart_type = (choice_of url).chart;
      created_at = now;
    }
unfolding view_to_save
saved_fields id now name url h = elim (Bool-cases (is_empty (trim name))) [
  | inl e ↦ let n = rw e at h in absurd cc
  | inr e ↦ let n = rw e at h in cc
]

selected-IsName : (url : Params) → All IsName (choice_of url).selected
unfolding choice_of
selected-IsName url = selected_of-IsName (query_value (lit "containers") [] url)

-- A view that is saved on one URL, where the metric and the time range are not empty, and applied on any other shows
-- the same metric, chart, containers and time range, without a group.
pub choice_of-apply_view :
    (id now name : Text) (url other : Params) {view : SavedView}
    → is_empty (choice_of url).metric ≡ false
    → is_empty (choice_of url).since ≡ false
    → view_to_save id now name url ≡ some view
    → choice_of (apply_view view other) ≡ record (choice_of url) { group = [] }
choice_of-apply_view id now name url other {view} m s h =
    rw (saved_fields id now name url h) (choice-apply_view _ other m s (selected-IsName url))
