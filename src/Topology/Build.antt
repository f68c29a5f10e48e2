-- ===== src/Topology/Build.antt =====
-- `buildServices`: one view for each service of the graph.
pub mod Ids
pub mod Edges
use argus_observability.Prelude.{
  ℕ, Bool, true, false, ◌&&◌, not, Option, none, some, List, [], ◌∷◌, map, if◌then◌else◌, leb,
  or_default, filter, find,
}
use argus_observability.Prelude.Text.{
  Text, lit, text_eq, is_empty, or_text, to_lower_case, add_text,
}
use argus_observability.Prelude.Sort.{sort_by}
use argus_observability.Api.Types.{
  ContainerFleetStatus, WorkloadSnapshot, HttpServiceSummary, ActiveAlert, TopologyNode,
  TopologyEdge, TopologyGraph,
}
use argus_observability.Observability.{matches_service}
use argus_observability.Topology.Status.{OpStatus, service_status}

pub record TopologySignals : Type 0 where
  pub fleet : List ContainerFleetStatus
  pub workloads : List WorkloadSnapshot
  pub http : List HttpServiceSummary
  pub alerts : List ActiveAlert

pub record EdgeView : Type 0 where
  pub other : Text
  pub kind : Text
  pub count : ℕ
  pub origin : Option Text
  pub port : Option ℕ

pub record ServiceView : Type 0 where
  pub id : Text
  pub label : Text
  pub status : OpStatus
  pub upstream : List EdgeView
  pub downstream : List EdgeView
  pub fleet : List ContainerFleetStatus
  pub workloads : List WorkloadSnapshot
  pub http : Option HttpServiceSummary
  pub alerts : List ActiveAlert

unfoldable pub same : Text → Text → Bool
unfolding to_lower_case
same a b = not (is_empty b) && text_eq (to_lower_case a) (to_lower_case b)

unfoldable pub matches_node : Text → Text → Option Text → Bool
unfolding matches_service
matches_node node_id container service = matches_service container service node_id

abbrev pub nodes_of : TopologyGraph → List TopologyNode
nodes_of graph = or_default graph.nodes []

abbrev pub edges_of : TopologyGraph → List TopologyEdge
edges_of graph = or_default graph.edges []

-- The two loops that fill the set of ids.
unfoldable pub add_nodes : List TopologyNode → List Text → List Text
add_nodes [] ids = ids
add_nodes (node ∷ nodes) ids = add_nodes nodes (add_text node.id ids)

unfoldable pub add_edges : List TopologyEdge → List Text → List Text
add_edges [] ids = ids
add_edges (edge ∷ edges) ids = add_edges edges (add_text edge.target (add_text edge.source ids))

unfoldable pub ids_of : TopologyGraph → List Text
ids_of graph = add_edges (edges_of graph) (add_nodes (nodes_of graph) [])

-- `labels.get(id) || id`: of two nodes with one id the map keeps the last.
unfoldable pub label_of : Text → List TopologyNode → Text → Text
label_of id [] found = or_text found id
label_of id (node ∷ nodes) found =
    label_of id nodes (if text_eq node.id id then or_text node.label node.id else found)

-- `(a, b) => b.count - a.count`.
abbrev pub busier : EdgeView → EdgeView → Bool
busier a b = leb b.count a.count

abbrev pub view_of : (TopologyEdge → Text) → TopologyEdge → EdgeView
view_of other edge = record {
  other = other edge;
  kind = edge.kind;
  count = edge.count;
  origin = edge.origin;
  port = edge.port;
}

unfoldable pub upstream_of : Text → List TopologyEdge → List EdgeView
upstream_of id edges =
    sort_by busier (map (view_of (λ e. e.source)) (filter (λ e. text_eq e.target id) edges))

unfoldable pub downstream_of : Text → List TopologyEdge → List EdgeView
downstream_of id edges =
    sort_by busier (map (view_of (λ e. e.target)) (filter (λ e. text_eq e.source id) edges))

unfoldable pub build_service : TopologyGraph → TopologySignals → Text → ServiceView
unfolding label_of matches_node same
build_service graph signals id =
    let fleet = filter (λ row. matches_node id row.container row.service) signals.fleet in
    let alerts = filter (λ row. matches_node id row.container none) signals.alerts in
    let http = find (λ row. same id row.service) signals.http in
    record {
      id = id;
      label = label_of id (nodes_of graph) [];
      status = service_status fleet alerts http;
      upstream = upstream_of id (edges_of graph);
      downstream = downstream_of id (edges_of graph);
      fleet = fleet;
      workloads = filter (λ row. matches_node id row.container row.service) signals.workloads;
      http = http;
      alerts = alerts;
    }

unfoldable pub build_services : TopologyGraph → TopologySignals → List ServiceView
build_services graph signals = map (build_service graph signals) (ids_of graph)
