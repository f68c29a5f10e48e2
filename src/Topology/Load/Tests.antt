-- ===== src/Topology/Load/Tests.antt =====
-- Two loads of the page whose answers arrive in the wrong order.
use argus_observability.Prelude.{
  ℕ, ◌==◌, Option, none, some, [], ◌∷◌, ◌≡◌, refl, if◌then◌else◌, here, there,
}
use argus_observability.Prelude.Text.{lit}
use argus_observability.Api.Types.{TopologyGraph}
use argus_observability.Topology.Load.{
  PageState, initial, load, current, graph_answered, graph_settled, World, Reachable, opens, steps,
  loads, answers, settles,
}
use argus_observability.Topology.Load.Laws.{Shows, Reachable-Shows}

abbrev graph_of : ℕ → TopologyGraph
graph_of n = record {
  nodes = some (record { id = lit "node"; label = lit "node" } ∷ []);
  edges = none;
}

abbrev other_graph : TopologyGraph
other_graph = record { nodes = none; edges = none }

-- The hub's answers to the two loads.
abbrev hub : ℕ → Option TopologyGraph
hub n = if n == 1 then some other_graph else some (graph_of n)

-- The second answer arrives first.
abbrev final : PageState
final = graph_settled 2 (graph_answered 1 (hub 1) (graph_answered 2 (hub 2) (load (load initial))))

final_world : World
final_world = record { page = final; waiting = 2 ∷ 1 ∷ []; answered = 1 ∷ 2 ∷ [] }

final_run : final.graph ≡ graph_of 2
unfolding load current graph_answered graph_settled
final_run = refl

final-Reachable :
    Reachable hub (record { page = final; waiting = 2 ∷ 1 ∷ []; answered = 1 ∷ 2 ∷ [] })
unfolding load
final-Reachable =
    steps
      (steps (steps (steps (steps opens loads) loads) (answers 2 (here refl)))
        (answers 1 (there (here refl))))
      (settles 2 (there (here refl)))

Reachable-Shows_example : Shows (hub final.generation) final
unfolding load current graph_answered graph_settled
Reachable-Shows_example = Reachable-Shows hub final-Reachable refl
