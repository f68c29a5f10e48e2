-- ===== src/Topology/Tests.antt =====
-- Runs of topology-view.ts on the data of topology-view.test.ts, and the theorems at it.
use argus_observability.Prelude.{
  ℕ, Bool, true, false, ◌||◌, none, some, List, [], ◌∷◌, map, if◌then◌else◌, ◌≡◌, ◌↔◌, inl, refl,
  length, filter, any, All, Ordered, find,
}
use mathlib.Core.List.{Perm}
use argus_observability.Prelude.Text.{Text, lit, text_eq, occurs, add_text, includes}
use argus_observability.Prelude.Sort.{IsPreorder}
use argus_observability.Api.Types.{
  WorkloadSnapshot, HttpServiceSummary, TopologyEdge, TopologyGraph,
}
use argus_observability.Fleet.{is_text, state_of, is_unstable}
use argus_observability.Fleet.Tests.{payments}
use argus_observability.Topology.Status.{
  OpStatus, critical, warning, unknown, healthy, service_status, service_status_lem, fleet_status,
  alert_status, is_critical, is_warning, reports_errors, reports_success, worsen, worse,
  http_errors, http_healthy,
}
use argus_observability.Topology.Build.{
  TopologySignals, EdgeView, ServiceView, build_services, edges_of, build_service, ids_of,
  add_nodes, add_edges,
}
use argus_observability.Topology.Build.Ids.{mentions, occurs-build_services}
use argus_observability.Topology.Build.Edges.{total_of, ListsEdges, build_services-edges}
use argus_observability.Topology.Rank.{rank_services, RankedBefore, rank_services-Ordered}
use argus_observability.Topology.Address.{is_address, is_ipv4}
use argus_observability.Topology.Address.Laws.{Groups, is_ipv4_iff}

abbrev edge : Text → Text → ℕ → TopologyEdge
edge from into n = record {
  source = from;
  target = into;
  kind = lit "http";
  count = n;
  origin = none;
  port = none;
}

abbrev graph : TopologyGraph
graph = record {
  nodes = some (record { id = lit "gateway"; label = [] } ∷ []);
  edges = some (
      edge (lit "gateway") (lit "checkout") 4
      ∷ edge (lit "checkout") (lit "payments") 2
      ∷ edge (lit "gateway") (lit "payments") 9
      ∷ []);
}

abbrev gateway_http : HttpServiceSummary
gateway_http = record {
  service = lit "gateway";
  requests = 10;
  errors = 0;
  error_rate = 0;
  avg_latency_ms = 12;
  max_latency_ms = 40;
}

abbrev signals : TopologySignals
signals = record { fleet = payments ∷ []; workloads = []; http = gateway_http ∷ []; alerts = [] }

abbrev services : List ServiceView
services = build_services graph signals

services_run :
    map {B = Text × Text × OpStatus} (λ (s : ServiceView). (s.id, s.label, s.status)) services
    ≡ (lit "gateway", lit "gateway", healthy)
      ∷ (lit "checkout", lit "checkout", unknown)
      ∷ (lit "payments", lit "payments", critical)
      ∷ []
unfolding build_services build_service service_status worsen worse http_errors http_healthy
    fleet_status alert_status is_unstable is_text state_of ids_of add_nodes add_edges add_text
    text_eq lit filter find includes
services_run = refl

service_status_lem_example : service_status (payments ∷ []) [] (some gateway_http) ≡ (
    if any (λ r. is_critical (fleet_status r)) (payments ∷ [])
      || any (λ a. is_critical (alert_status a)) []
    then critical
    else if any (λ r. is_warning (fleet_status r)) (payments ∷ [])
        || any (λ a. is_warning (alert_status a)) []
        || reports_errors (some gateway_http)
    then warning
    else if reports_success (some gateway_http)
    then healthy
    else unknown)
service_status_lem_example = service_status_lem (payments ∷ []) [] (some gateway_http)

occurs-build_services_example :
    occurs (lit "payments") (map (λ (s : ServiceView). s.id) services)
    ≡ (if mentions graph (lit "payments") then 1 else 0)
occurs-build_services_example = occurs-build_services graph signals (lit "payments")

-- The edges that come from or go to the payments.
abbrev with_payments : EdgeView → Bool
with_payments v = text_eq v.other (lit "payments")

build_services-edges_example :
    All (ListsEdges with_payments (edges_of graph)) services
    × (total_of (λ s. length s.upstream) services ≡ length (edges_of graph))
    × (total_of (λ s. length s.downstream) services ≡ length (edges_of graph))
build_services-edges_example = build_services-edges graph signals with_payments

-- A collation that holds all labels equal.
abbrev same_label : Text → Text → Bool
same_label a b = true

same_label-IsPreorder : IsPreorder same_label
same_label-IsPreorder = record { total = λ a b. inl refl; trans = λ a b c p q. refl }

rank_services-Ordered_example :
    Perm (rank_services same_label services) services
    × Ordered (RankedBefore same_label) (rank_services same_label services)
rank_services-Ordered_example = rank_services-Ordered same_label same_label-IsPreorder services

abbrev idle : ServiceView
idle = record {
  id = lit "10.0.0.1";
  label = lit "10.0.0.1";
  status = unknown;
  upstream = [];
  downstream = [];
  fleet = [];
  workloads = [];
  http = none;
  alerts = [];
}

abbrev workload : Text → ℕ → WorkloadSnapshot
workload name cpu = record {
  container = name;
  entity_uid = name;
  stack = none;
  service = none;
  labels = none;
  cpu_usage = cpu;
  memory_usage = 1;
  memory_limit = 2;
  updated_at = [];
}

-- The addresses and the names of topology-view.test.ts.
is_address_runs :
    (is_address (lit "10.0.160.97") ≡ true)
    × (is_address (lit "2a02:4780:14:3aa7::1") ≡ true)
    × (is_address (lit "0aa83922cb55") ≡ true)
    × (is_address (lit "gateway") ≡ false)
    × (is_address (lit "api.example.com") ≡ false)
    × (is_address (lit "orders-response-queue-0aa83922cb55") ≡ false)
    × (is_address (lit "beef") ≡ false)
unfolding is_address lit
is_address_runs = (refl, refl, refl, refl, refl, refl, refl)

is_ipv4_iff_example : (is_ipv4 (lit "10.0.0.1") ≡ true) ↔ Groups 3 (lit "10.0.0.1")
is_ipv4_iff_example = is_ipv4_iff (lit "10.0.0.1")
