-- ===== src/Topology/Load.antt =====
-- web/src/pages/topology.tsx: the loading of the page. A load asks for five answers; each arrives as a step of its
-- own, in any order, and counts only if no newer load has begun. `answer run` is what the hub sends to the graph
-- request of a run, `none` where the request fails.
pub mod Laws
mod Tests
use argus_observability.Prelude.{
  ℕ, suc, ◌==◌, Bool, true, false, Option, none, some, List, [], ◌∷◌, if◌then◌else◌, or_default,
  Has,
}
use argus_observability.Api.Types.{
  ActiveAlert, ContainerFleetStatus, HttpServiceSummary, WorkloadSnapshot, TopologyGraph,
  FleetStatusResponse,
}

-- The state of `TopologyPage`; `generation` is the ref that counts the loads.
pub record PageState : Type 0 where
  pub graph : TopologyGraph
  pub fleet : List ContainerFleetStatus
  pub workloads : List WorkloadSnapshot
  pub http : List HttpServiceSummary
  pub alerts : List ActiveAlert
  pub loading : Bool
  pub error : Bool
  pub generation : ℕ

abbrev pub empty_graph : TopologyGraph
empty_graph = record { nodes = some []; edges = some [] }

abbrev pub initial : PageState
initial = record {
  graph = empty_graph;
  fleet = [];
  workloads = [];
  http = [];
  alerts = [];
  loading = true;
  error = false;
  generation = 0;
}

-- The synchronous part of `load`.
unfoldable pub load : PageState → PageState
load s = record s { loading = true; error = false; generation = suc s.generation }

-- `current()` of the load `run`.
unfoldable pub current : ℕ → PageState → Bool
current run s = run == s.generation

-- `.then` and `.catch` of the graph request.
unfoldable pub graph_answered : ℕ → Option TopologyGraph → PageState → PageState
graph_answered run (some next) s = if current run s then record s { graph = next } else s
graph_answered run none s = if current run s then record s { error = true } else s

-- `.finally` of the graph request.
unfoldable pub graph_settled : ℕ → PageState → PageState
graph_settled run s = if current run s then record s { loading = false } else s

-- What `side` applies to the four other answers; `none` where the request failed.
pub data SideAnswer : Type 0 where
  fleet_answer : Option FleetStatusResponse → SideAnswer
  workloads_answer : Option (List WorkloadSnapshot) → SideAnswer
  http_answer : Option (List HttpServiceSummary) → SideAnswer
  alerts_answer : Option (List ActiveAlert) → SideAnswer

abbrev containers_of : Option FleetStatusResponse → List ContainerFleetStatus
containers_of none = []
containers_of (some response) = or_default response.containers []

unfoldable pub apply_side : SideAnswer → PageState → PageState
apply_side (fleet_answer v) s = record s { fleet = containers_of v }
apply_side (workloads_answer v) s = record s { workloads = or_default v [] }
apply_side (http_answer v) s = record s { http = or_default v [] }
apply_side (alerts_answer v) s = record s { alerts = or_default v [] }

unfoldable pub side_answered : ℕ → SideAnswer → PageState → PageState
side_answered run v s = let next = apply_side v s in if current run s then next else s

-- The page with the graph requests under way: those that wait for their answer, and those whose `.finally` is due.
pub record World : Type 0 where
  pub page : PageState
  pub waiting : List ℕ
  pub answered : List ℕ

module _ (answer : ℕ → Option TopologyGraph) where
  -- The steps of the page. A load is begun by the effect, by another time range and by the retry button.
  pub data Step (w : World) : World → Type 0 where
    loads : Step w (record {
      page = load w.page;
      waiting = suc w.page.generation ∷ w.waiting;
      answered = w.answered;
    })
    answers :
        (run : ℕ)
        → Has run w.waiting
        → Step w (record {
          page = graph_answered run (answer run) w.page;
          waiting = w.waiting;
          answered = run ∷ w.answered;
        })
    settles : (run : ℕ) → Has run w.answered → Step w (record w { page = graph_settled run w.page })
    sides : (run : ℕ) (v : SideAnswer) → Step w (record w { page = side_answered run v w.page })

  -- The worlds that the page comes to.
  pub data Reachable : World → Type 0 where
    opens : Reachable (record { page = initial; waiting = []; answered = [] })
    steps : {w w' : World} → Reachable w → Step w w' → Reachable w'
