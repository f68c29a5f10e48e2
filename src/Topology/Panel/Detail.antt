-- ===== src/Topology/Panel/Detail.antt =====
-- web/src/pages/topology.tsx: the path and the detail of the selected service, and the controls that write the URL.
use argus_observability.Prelude.{
  ℕ, ◌*◌, ◌==◌, Bool, Option, none, some, List, [], ◌++◌, map, if◌then◌else◌, length, ltb,
  or_default,
}
use argus_observability.Prelude.Text.{Text, lit, is_empty, or_text}
use argus_observability.Query.{Params, query_value, set_query}
use argus_observability.Api.Types.{HttpServiceSummary, WorkloadSnapshot, Measure}
use argus_observability.Fleet.{BadgeVariant}
use argus_observability.Stats.{Fraction}
use argus_observability.Metrics.Compare.{round_div}
use argus_observability.Topology.Status.{OpStatus, critical, warning, healthy, unknown}
use argus_observability.Topology.Build.{EdgeView, ServiceView}
use argus_observability.Topology.Rank.{busiest_workload}
use argus_observability.Topology.Panel.{Choices, status_badge}

-- The four parameters of the URL.
unfoldable pub choices_of : Params → Choices
choices_of url = record {
  since = query_value (lit "since") (lit "24h") url;
  focus = query_value (lit "focus") [] url;
  query = query_value (lit "q") [] url;
  show_addresses = query_value (lit "addresses") [] url;
}

-- The controls of the page.
unfoldable pub set_since : Text → Params → Params
set_since v url = set_query (lit "since") (lit "24h") v url

unfoldable pub select_service : Text → Params → Params
select_service id url = set_query (lit "focus") [] id url

-- The button of the addresses.
unfoldable pub toggle_addresses : Text → Params → Params
toggle_addresses shown url =
    set_query (lit "addresses") [] (if is_empty shown then lit "1" else []) url

-- A button of an edge: the service that it selects, its kind, its count and its origin.
pub record EdgeButton : Type 0 where
  pub other : Text
  pub kind : Text
  pub count : ℕ
  pub origin : Text

-- `t_or key text` is the translation with a default value.
unfoldable pub edge_button : (Text → Text) → (Text → Text → Text) → EdgeView → EdgeButton
edge_button t t_or edge = record {
  other = edge.other;
  kind = t_or (lit "topology.kinds." ++ edge.kind) edge.kind;
  count = edge.count;
  origin = or_text (or_default edge.origin []) (t (lit "topology.originUnknown"));
}

-- The edges of one side: a note, or the buttons.
pub data EdgeGroup : Type 0 where
  no_edges : Text → EdgeGroup
  edge_buttons : List EdgeButton → EdgeGroup

unfoldable pub edge_group : (Text → Text) → (Text → Text → Text) → Text → List EdgeView → EdgeGroup
unfolding edge_button
edge_group t t_or empty edges =
    if length edges == 0 then no_edges (t empty) else edge_buttons (map (edge_button t t_or) edges)

-- The border of the service in the path.
pub data Border : Type 0 where
  border_destructive border_foreground border_plain : Border

abbrev border_of : OpStatus → Border
border_of critical = border_destructive
border_of warning = border_foreground
border_of healthy = border_plain
border_of unknown = border_plain

pub record PathView : Type 0 where
  pub upstream : EdgeGroup
  pub label : Text
  pub border : Border
  pub badge : BadgeVariant
  pub downstream : EdgeGroup

unfoldable pub path_view : (Text → Text) → (Text → Text → Text) → ServiceView → PathView
unfolding edge_group
path_view t t_or service = record {
  upstream = edge_group t t_or (lit "topology.noUpstream") service.upstream;
  label = service.label;
  border = border_of service.status;
  badge = status_badge service.status;
  downstream = edge_group t t_or (lit "topology.noDownstream") service.downstream;
}

-- `memory_usage / memory_limit * 100`, `none` without a limit.
unfoldable pub memory_pct : WorkloadSnapshot → Option Fraction
memory_pct w =
    if ltb 0 w.memory_limit
    then some (record { num = w.memory_usage * 100; den = w.memory_limit })
    else none

-- The usage of the busiest workload: its CPU, its memory, and whose it is if there are several.
pub record Usage : Type 0 where
  pub cpu : Measure
  pub memory : Option (Fraction × Measure)
  pub of_several : Option (Text × ℕ)

abbrev memory_shown : WorkloadSnapshot → Option Fraction → Option (Fraction × Measure)
memory_shown w none = none
memory_shown w (some pct) = some (pct, w.memory_usage)

unfoldable pub usage_of : List WorkloadSnapshot → Option Usage
unfolding memory_pct
usage_of workloads = elim (busiest_workload workloads) [
  | none ↦ none
  | some w ↦ some (record {
    cpu = w.cpu_usage;
    memory = memory_shown w (memory_pct w);
    of_several = if ltb 1 (length workloads) then some (w.container, length workloads) else none;
  })
]

pub record DetailView : Type 0 where
  pub label : Text
  pub badge : BadgeVariant
  pub usage : Option Usage
  pub http : Option (Measure × ℕ)
  pub no_fleet : Bool
  pub logs_link : Text
  pub traces_link : Text
  pub metrics_link : Text

-- The error rate as a percentage, and the latency in whole milliseconds.
abbrev http_shown : Option HttpServiceSummary → Option (Measure × ℕ)
http_shown none = none
http_shown (some h) = some (h.error_rate * 100, round_div h.avg_latency_ms 1000000)

unfoldable pub detail_view : (Text → Text) → Text → ServiceView → DetailView
unfolding usage_of
detail_view encode since service =
    let target = encode service.id ++ (lit "&since=" ++ since) in
    record {
      label = service.label;
      badge = status_badge service.status;
      usage = usage_of service.workloads;
      http = http_shown service.http;
      no_fleet = length service.fleet == 0;
      logs_link = lit "/logs?container=" ++ target;
      traces_link = lit "/traces?service=" ++ target;
      metrics_link = lit "/metrics?container=" ++ target;
    }
