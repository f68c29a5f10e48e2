-- ===== src/Topology/Panel/Follow/Tests.antt =====
-- From a service to the one that it calls.
use argus_observability.Prelude.{none, some, [], ◌∷◌, filter, ◌≡◌, refl, Has, here, inr}
use argus_observability.Prelude.Text.{lit, text_eq, add_text, has_text}
use argus_observability.Prelude.Sort.{sort_by, insert_by}
use argus_observability.Api.Types.{TopologyEdge, TopologyGraph}
use argus_observability.Traces.{text_le}
use argus_observability.Topology.Build.{
  ServiceView, TopologySignals, build_service, build_services, ids_of, add_edges, add_nodes,
  downstream_of, view_of,
}
use argus_observability.Topology.Rank.{rank_services}
use argus_observability.Topology.Load.{initial}
use argus_observability.Topology.Panel.{shown_of}
use argus_observability.Topology.Panel.Detail.{choices_of, select_service}
use argus_observability.Topology.Panel.Follow.{select_service_lem}

abbrev call : TopologyEdge
call = record {
  source = lit "web";
  target = lit "api";
  kind = lit "http";
  count = 3;
  origin = none;
  port = none;
}

abbrev graph : TopologyGraph
graph = record { nodes = none; edges = some (call ∷ []) }

abbrev signals : TopologySignals
signals = record { fleet = []; workloads = []; http = []; alerts = [] }

web_built : Has (build_service graph signals (lit "web")) (build_services graph signals)
unfolding build_services ids_of add_edges add_nodes add_text has_text text_eq lit
web_built = here refl

calls_api : Has (view_of (λ e. e.target) call) (build_service graph signals (lit "web")).downstream
unfolding build_service downstream_of sort_by insert_by filter text_eq lit
calls_api = here refl

select_service_lem_example :
    (next : ServiceView) × ((shown_of initial
        (choices_of (select_service (lit "api") []))
        (rank_services text_le (build_services graph signals))).selected
      ≡ some next)
    × Has next (rank_services text_le (build_services graph signals))
    × (next.id ≡ lit "api")
unfolding lit
select_service_lem_example =
    select_service_lem text_le graph signals initial [] web_built (inr calls_api) refl
