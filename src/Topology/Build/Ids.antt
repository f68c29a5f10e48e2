-- ===== src/Topology/Build/Ids.antt =====
-- The ids of the views: each node and each end of an edge, once.
use argus_observability.Prelude.{
  ◌≤◌, Bool, ◌||◌, List, [], ◌∷◌, map, if◌then◌else◌, ◌≡◌, refl, arith, any, ap,
}
use argus_observability.Prelude.Text.{Text, text_eq, occurs, add_text, occurs-add_text}
use argus_observability.Api.Types.{TopologyNode, TopologyEdge, TopologyGraph}
use argus_observability.Topology.Build.{
  TopologySignals, ServiceView, nodes_of, edges_of, add_nodes, add_edges, ids_of, build_service,
  build_services,
}

abbrev is_node : Text → TopologyNode → Bool
is_node x node = text_eq x node.id

abbrev pub is_end : Text → TopologyEdge → Bool
is_end x edge = text_eq x edge.source || text_eq x edge.target

-- The graph names `x`: as a node or as an end of an edge.
abbrev pub mentions : TopologyGraph → Text → Bool
mentions graph x = any (is_node x) (nodes_of graph) || any (is_end x) (edges_of graph)

occurs-add_nodes :
    (x : Text) (nodes : List TopologyNode) (ids : List Text)
    → occurs x ids ≤ 1
    → occurs x (add_nodes nodes ids) ≡ (if any (is_node x) nodes then 1 else occurs x ids)
unfolding add_nodes any
occurs-add_nodes x [] ids h = refl
occurs-add_nodes x (node ∷ nodes) ids h =
    let step = occurs-add_text x node.id ids h in
    let ih = occurs-add_nodes x nodes (add_text node.id ids) in ground (arith, step, ih)

occurs-add_edges :
    (x : Text) (edges : List TopologyEdge) (ids : List Text)
    → occurs x ids ≤ 1
    → occurs x (add_edges edges ids) ≡ (if any (is_end x) edges then 1 else occurs x ids)
unfolding add_edges any
occurs-add_edges x [] ids h = refl
occurs-add_edges x (edge ∷ edges) ids h =
    let first = occurs-add_text x edge.source ids h in
    let second = occurs-add_text x edge.target (add_text edge.source ids) in
    let ih = occurs-add_edges x edges (add_text edge.target (add_text edge.source ids)) in
    ground (arith, first, second, ih)

pub occurs-ids_of :
    (graph : TopologyGraph) (x : Text)
    → occurs x (ids_of graph) ≡ (if mentions graph x then 1 else 0)
unfolding ids_of occurs
occurs-ids_of graph x =
    let nil : occurs x [] ≡ 0 = refl in
    let step = occurs-add_nodes x (nodes_of graph) [] in
    ground (arith, nil, step, occurs-add_edges x (edges_of graph) (add_nodes (nodes_of graph) []))

map-id :
    (graph : TopologyGraph) (signals : TopologySignals) (ids : List Text)
    → map (λ (s : ServiceView). s.id) (map (build_service graph signals) ids) ≡ ids
unfolding build_service
map-id graph signals [] = refl
map-id graph signals (id ∷ ids) = ap (◌∷◌ id) (map-id graph signals ids)

-- `buildServices` gives one view for each name that the graph mentions, as a node or as an end of an
-- edge, and none for any other name.
pub occurs-build_services :
    (graph : TopologyGraph) (signals : TopologySignals) (x : Text)
    → occurs x (map (λ (s : ServiceView). s.id) (build_services graph signals))
      ≡ (if mentions graph x then 1 else 0)
unfolding build_services
occurs-build_services graph signals x =
    rw (map-id graph signals (ids_of graph)) (occurs-ids_of graph x)
