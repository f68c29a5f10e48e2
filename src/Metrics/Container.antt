-- ===== src/Metrics/Container.antt =====
-- web/src/views/container-metrics.tsx: the metrics of one container: the choice of the container, the nine requests, and
-- what the view shows.
pub mod Laws
pub mod Load
mod Tests
use argus_observability.Prelude.{
  ℕ, ◌+◌, ◌*◌, ◌/◌, ◌==◌, Bool, true, false, not, ◌||◌, ◌&&◌, Option, none, some, List, [], ◌∷◌,
  ◌++◌, map, filter, find, first, length, if◌then◌else◌, or_default, leb, ltb,
}
use argus_observability.Prelude.Text.{Text, lit, text_eq, is_empty, or_text, has_text}
use argus_observability.Prelude.Sort.{sort_by}
use argus_observability.Query.{Params, patch, query_value}
use argus_observability.Api.Types.{SeriesPoint, WorkloadSnapshot, MetricSeriesResponse, Measure}
use argus_observability.Observability.{matches_service}
use argus_observability.Stats.{StatMode, avg, p85, p90, p95, maximum, summarize}
use argus_observability.Traces.{text_le}
use argus_observability.Metrics.Compare.{round_div}

-- `members` is `null` without a group, and otherwise the set of its containers.
abbrev pub in_members : Option (List Text) → WorkloadSnapshot → Bool
in_members none w = true
in_members (some members) w = has_text members w.container

unfoldable pub container_names : Option (List Text) → List WorkloadSnapshot → List Text
container_names members workloads =
    sort_by text_le (map (λ w. w.container) (filter (in_members members) workloads))

-- The order of the comparison `b.cpu_usage - a.cpu_usage || b.memory_usage - a.memory_usage`.
unfoldable pub more_busy : WorkloadSnapshot → WorkloadSnapshot → Bool
more_busy a b =
    ltb b.cpu_usage a.cpu_usage || (b.cpu_usage == a.cpu_usage && leb b.memory_usage a.memory_usage)

unfoldable pub busiest_of : List Text → List WorkloadSnapshot → Option WorkloadSnapshot
unfolding more_busy
busiest_of names workloads =
    first (sort_by more_busy (filter (λ w. has_text names w.container) workloads))

unfoldable pub by_service : Text → List WorkloadSnapshot → Option WorkloadSnapshot
by_service service workloads =
    if is_empty service
    then none
    else find (λ w. matches_service w.container w.service service) workloads

-- `byService?.container ?? busiest?.container ?? containers[0]`.
unfoldable pub chosen_container : Text → List Text → List WorkloadSnapshot → Option Text
chosen_container service names workloads = elim (by_service service workloads) [
  | some w ↦ some w.container
  | none ↦ elim (busiest_of names workloads) [ some w ↦ some w.container | none ↦ first names ]
]

-- The effect that chooses a container when the URL has none.
unfoldable pub choose_container : Option (List Text) → List WorkloadSnapshot → Params → Params
unfolding container_names chosen_container
choose_container members workloads url =
    let names = container_names members workloads in
    let service = query_value (lit "service") [] url in
    let next =
      patch
        ((lit "container", chosen_container service names workloads) ∷ (lit "service", none) ∷ [])
        [] url in
    if not (is_empty (query_value (lit "container") [] url)) || length names == 0 then url else next

-- The button of a container in the list.
unfoldable pub select_container : Text → Params → Params
select_container name url = patch ((lit "container", some name) ∷ []) [] url

pub record SeriesMap : Type 0 where
  pub cpu : List SeriesPoint
  pub mem : List SeriesPoint
  pub mem_pct : List SeriesPoint
  pub http_latency : List SeriesPoint
  pub http_errors : List SeriesPoint
  pub net_rx : List SeriesPoint
  pub net_tx : List SeriesPoint
  pub blk_read : List SeriesPoint
  pub blk_write : List SeriesPoint

abbrev pub no_series : SeriesMap
no_series = record {
  cpu = [];
  mem = [];
  mem_pct = [];
  http_latency = [];
  http_errors = [];
  net_rx = [];
  net_tx = [];
  blk_read = [];
  blk_write = [];
}

-- The statistic of a series to one decimal, in millionths; 0 without a value.
unfoldable pub pick : StatMode → List SeriesPoint → Measure
pick stat pts = elim (summarize (map (λ p. p.value) pts) stat) [
  | none ↦ 0
  | some v ↦ round_div (v.num * 10) (v.den * 1000000) * 100000
]

unfoldable pub stat_word : (Text → Text) → StatMode → Text
stat_word t avg = t (lit "metrics.statAvg")
stat_word t maximum = t (lit "metrics.statPeak")
stat_word t p85 = lit "p85"
stat_word t p90 = lit "p90"
stat_word t p95 = lit "p95"

-- A chart: the keys of its title and description, its points, its unit, and what it does to a value.
pub record Chart : Type 0 where
  pub title : Text
  pub description : Option Text
  pub points : List SeriesPoint
  pub unit : Text
  pub transform : Option (Measure → Measure)

abbrev plain_chart : Text → List SeriesPoint → Text → Option (Measure → Measure) → Chart
plain_chart title points unit transform = record {
  title = title;
  description = none;
  points = points;
  unit = unit;
  transform = transform;
}

-- `Math.round(v)`.
unfoldable pub round_whole : Measure → Measure
round_whole v = round_div v 1000000 * 1000000

abbrev has_points : List SeriesPoint → Bool
has_points points = not (length points == 0)

-- The charts of the view, in their order.
unfoldable pub charts_of : SeriesMap → List Chart
unfolding round_whole
charts_of s =
    plain_chart (lit "containers.cpu") s.cpu (lit "%") none
    ∷ plain_chart (lit "metrics.memoryVsLimit") s.mem_pct (lit "%") none
    ∷ plain_chart (lit "metrics.memoryUsed") s.mem (lit " MiB")
        (some (λ v. round_div v (1048576 * 1000000) * 1000000))
    ∷ ((if has_points s.net_rx || has_points s.net_tx
          then plain_chart (lit "metrics.netRxBytes") s.net_rx (lit " B/s") (some round_whole)
            ∷ plain_chart (lit "metrics.netTxBytes") s.net_tx (lit " B/s") (some round_whole)
            ∷ []
          else [])
        ++ ((if has_points s.blk_read || has_points s.blk_write
              then plain_chart (lit "metrics.diskReadBytes") s.blk_read (lit " B/s")
                  (some round_whole)
                ∷ plain_chart (lit "metrics.diskWriteBytes") s.blk_write (lit " B/s")
                    (some round_whole)
                ∷ []
              else [])
            ++ (if has_points s.http_latency || has_points s.http_errors
                then record {
                  title = lit "metrics.httpDuration";
                  description = some (lit "metrics.httpLatencyLogs");
                  points = s.http_latency;
                  unit = lit " ms";
                  transform = some round_whole;
                }
                  ∷ record {
                    title = lit "metrics.httpErrorRate";
                    description = some (lit "metrics.httpErrorStatus");
                    points = s.http_errors;
                    unit = lit "%";
                    transform = some (λ v. round_div (v * 1000) 1000000 * 100000);
                  }
                  ∷ []
                else [])))

-- The note that the chosen container is not among those of the last hour.
unfoldable pub not_recent : Option (List Text) → List WorkloadSnapshot → Text → Bool
unfolding container_names
not_recent members workloads selected =
    not (length workloads == 0) && not (has_text (container_names members workloads) selected)

-- `workload?.service || selected` of the link to the traces.
unfoldable pub traces_service : List WorkloadSnapshot → Text → Text
traces_service workloads selected = elim (find (λ w. text_eq w.container selected) workloads) [
  | none ↦ selected
  | some w ↦ or_text (or_default w.service []) selected
]

pub data ContainerBody : Type 0 where
  no_body skeleton : ContainerBody
  meters : Measure → Measure → List Chart → ContainerBody

unfoldable pub container_body : Text → List Text → StatMode → SeriesMap → ContainerBody
unfolding charts_of pick
container_body selected names stat s =
    if is_empty selected
    then (if length names == 0 then no_body else skeleton)
    else meters (pick stat s.cpu) (pick stat s.mem_pct) (charts_of s)
