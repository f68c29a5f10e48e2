-- ===== src/Metrics/Compare.antt =====
-- web/src/views/metric-compare.tsx: the comparison of containers: what the URL chooses, the handlers that write it, and
-- the saved views.

pub mod Laws
pub mod Views
pub mod Load
mod Tests
use argus_observability.Prelude.{
  ℕ, ◌+◌, ◌*◌, ◌/◌, ◌==◌, Bool, true, false, not, ◌||◌, ◌&&◌, Option, none, some, List, [], ◌∷◌,
  ◌++◌, map, filter, take, length, find, if◌then◌else◌, or_default,
}
use argus_observability.Prelude.Text.{
  Text, lit, text_eq, is_empty, or_text, trim, split, join, last_or, has_text, add_text,
}
use argus_observability.Prelude.Sort.{sort_by}
use argus_observability.Query.{Params, patch, query_value}
use argus_observability.Api.Types.{ContainerSeries, MetricCatalogEntry, WorkloadSnapshot, Measure}
use argus_observability.Observability.{matches_service}
use argus_observability.Observability.SavedViews.{SavedView, ChartType, area, line}
use argus_observability.Traces.{text_le}
use argus_observability.Language.Catalog.{localize_metric_label}

-- `s.entity_uid.split(":").pop() || s.container`.
unfoldable pub series_container : ContainerSeries → Text
series_container s = or_text (last_or [] (split b':' s.entity_uid)) s.container

-- `containersParam.split(",").filter(Boolean)`.
unfoldable pub selected_of : Text → List Text
selected_of param = filter (λ name. not (is_empty name)) (split b',' param)

-- What the view reads from the URL; the time range and the group are its properties, which the page reads from it.
pub record Choice : Type 0 where
  pub metric : Text
  pub chart : ChartType
  pub selected : List Text
  pub since : Text
  pub group : Text

unfoldable pub choice_of : Params → Choice
choice_of url = record {
  metric = query_value (lit "metric") (lit "memory.usage_pct") url;
  chart = if text_eq (query_value (lit "chart") (lit "area") url) (lit "line") then line else area;
  selected = selected_of (query_value (lit "containers") [] url);
  since = query_value (lit "since") (lit "1h") url;
  group = query_value (lit "group") [] url;
}

unfoldable pub names_of : List WorkloadSnapshot → List Text
names_of workloads = sort_by text_le (map (λ w. w.container) workloads)

unfoldable pub initial_of : Text → List Text → List WorkloadSnapshot → List Text
initial_of service names workloads =
    if is_empty service
    then take 3 names
    else map (λ w. w.container)
        (filter (λ w. matches_service w.container w.service service) workloads)

abbrev some_or : List Text → List Text → List Text
some_or [] d = d
some_or (x ∷ xs) d = x ∷ xs

-- The effect of the first choice: the flag `initialized` and the URL after it.
unfoldable pub initialize : Bool → List WorkloadSnapshot → Params → Bool × Params
unfolding names_of initial_of
initialize initialized workloads url =
    let names = names_of workloads in
    let choice = choice_of url in
    let service = query_value (lit "service") [] url in
    let chosen = some_or (initial_of service names workloads) (take 3 names) in
    if initialized || length names == 0
    then (initialized, url)
    else if not (is_empty choice.group) || not (length choice.selected == 0)
    then (true, url)
    else (
      true,
      patch ((lit "containers", some (join (lit ",") chosen)) ∷ (lit "service", none) ∷ []) [] url,
    )

unfoldable pub toggled : Text → List Text → List Text
toggled name selected =
    if has_text selected name
    then filter (λ c. not (text_eq c name)) selected
    else selected ++ (name ∷ [])

unfoldable pub toggle_container : Text → Params → Params
unfolding toggled
toggle_container name url =
    patch ((lit "containers", some (join (lit ",") (toggled name (choice_of url).selected))) ∷ [])
      [] url

-- The view that `handleSaveView` stores; `none` where the name is blank. The id and the time are parameters.
unfoldable pub view_to_save : Text → Text → Text → Params → Option SavedView
view_to_save id now name url =
    let c = choice_of url in
    if is_empty (trim name)
    then none
    else some (record {
      id = id;
      name = trim name;
      metric = c.metric;
      containers = c.selected;
      since = c.since;
      chart_type = c.chart;
      created_at = now;
    })

abbrev pub chart_text : ChartType → Text
chart_text area = lit "area"
chart_text line = lit "line"

unfoldable pub apply_view : SavedView → Params → Params
apply_view view url =
    patch
      ((lit "metric", some view.metric)
        ∷ (lit "since", some view.since)
        ∷ (lit "containers", some (join (lit ",") view.containers))
        ∷ (lit "chart", some (chart_text view.chart_type))
        ∷ (lit "group", none)
        ∷ [])
      [] url

unfoldable pub unit_of : List MetricCatalogEntry → Text → Text
unit_of catalog metric = elim (find (λ c. text_eq c.name metric) catalog) [
  | none ↦ []
  | some m ↦
      if text_eq m.unit (lit "%")
      then lit "%"
      else if text_eq m.unit (lit "bytes")
      then lit " MiB"
      else lit " " ++ m.unit
]

-- `Math.round(num / den)`.
unfoldable pub round_div : ℕ → ℕ → ℕ
round_div num den = (2 * num + den) / (2 * den)

-- The function of the chart's values, in millionths; `none` is `undefined`.
unfoldable pub transform_of : Text → Option (Measure → Measure)
unfolding round_div
transform_of metric =
    if text_eq metric (lit "memory.usage") || text_eq metric (lit "memory.limit")
    then some (λ v. round_div v (1048576 * 1000000) * 1000000)
    else if text_eq metric (lit "http.error_rate")
    then some (λ v. round_div (v * 1000) 1000000 * 100000)
    else if text_eq metric (lit "http.duration_ms")
    then some (λ v. round_div v 1000000 * 1000000)
    else none

unfoldable pub add_containers : List ContainerSeries → List Text → List Text
add_containers [] seen = seen
add_containers (s ∷ series) seen = add_containers series (add_text (series_container s) seen)

-- The containers with a link below the chart.
unfoldable pub openable_of : Choice → List ContainerSeries → List Text
unfolding add_containers
openable_of c series =
    if not (is_empty c.group) || length c.selected == 0
    then add_containers series []
    else c.selected

-- The key of the description and the count that it is given.
unfoldable pub scope_of : Choice → Text × Option ℕ
scope_of c =
    if not (is_empty c.group)
    then (lit "metrics.groupContainers", none)
    else if length c.selected == 0
    then (lit "metrics.allContainers", none)
    else if length c.selected == 1
    then (lit "metrics.oneContainer", none)
    else (lit "metrics.nContainers", some (length c.selected))

unfoldable pub metric_label : (Text → Text) → List MetricCatalogEntry → Text → Text
metric_label t catalog metric =
    localize_metric_label t metric
      (elim (find (λ c. text_eq c.name metric) catalog) [ none ↦ metric | some m ↦ m.label ])
