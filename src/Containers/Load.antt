-- ===== src/Containers/Load.antt =====
-- web/src/pages/containers.tsx: the loads of the page, the buttons that write the URL, and the series of a card. The members
-- of the group are loaded as in the page of metrics.
use argus_observability.Prelude.{
  Bool, true, false, Option, none, some, List, [], ◌∷◌, map, if◌then◌else◌, or_default, ◌>>=◌, ◌≡◌,
  refl,
}
use argus_observability.Prelude.Text.{Text, lit, text_eq, is_empty}
use argus_observability.Prelude.Assoc.{find_key, put, find_key-put}
use argus_observability.Prelude.Sort.{sort_by}
use argus_observability.Query.{Params, set_query}
use argus_observability.Api.Types.{
  ContainerSeries, SeriesPoint, FleetStatusResponse, MetricSeriesResponse, WorkloadGroup,
  WorkloadGroupSummary, WorkloadSnapshot,
}
use argus_observability.Metrics.{add_members}
use argus_observability.Series.Laws.{text-IsKeyTest}
use argus_observability.Traces.{text_le}

pub record ContainersState : Type 0 where
  pub workloads : List WorkloadSnapshot
  pub fleet : Option FleetStatusResponse
  pub cpu_series : List ContainerSeries
  pub mem_series : List ContainerSeries
  pub groups : List WorkloadGroup
  pub members : Option (List Text)
  pub loading : Bool
  pub error : Option Text

abbrev pub containers_opened : ContainersState
containers_opened = record {
  workloads = [];
  fleet = none;
  cpu_series = [];
  mem_series = [];
  groups = [];
  members = none;
  loading = true;
  error = none;
}

-- The answers of one load, `none` where a request fails.
pub record ContainersAnswers : Type 0 where
  pub workloads : Option (List WorkloadSnapshot)
  pub fleet : Option FleetStatusResponse
  pub cpu : Option MetricSeriesResponse
  pub mem : Option MetricSeriesResponse

-- The requests for series are made only for the grid; the table takes an empty answer.
abbrev series_or_empty : Bool → Option MetricSeriesResponse → Option (List ContainerSeries)
series_or_empty false answer = some []
series_or_empty true none = none
series_or_empty true (some r) = some (or_default r.series [])

unfoldable pub containers_of_answers :
    Bool → ContainersAnswers → ContainersState → Option ContainersState
containers_of_answers with_series a s = do
  workloads ← a.workloads
  fleet ← a.fleet
  cpu ← series_or_empty with_series a.cpu
  mem ← series_or_empty with_series a.mem
  some (record s {
    workloads = workloads;
    fleet = some fleet;
    cpu_series = cpu;
    mem_series = mem;
    loading = false;
    error = none;
  })

-- `.then`, `.catch` and `.finally`; `message` is the translation of `containers.loadError`.
unfoldable pub containers_answered :
    Text → Bool → ContainersAnswers → ContainersState → ContainersState
unfolding containers_of_answers
containers_answered message with_series a s =
    or_default (containers_of_answers with_series a s)
      (record s { loading = false; error = some message })

unfoldable pub load_groups : Option (List WorkloadGroup) → ContainersState → ContainersState
load_groups answer s = record s { groups = or_default answer [] }

unfoldable pub group_chosen : Text → ContainersState → ContainersState
group_chosen group s = if is_empty group then record s { members = none } else s

unfoldable pub group_answered : Option WorkloadGroupSummary → ContainersState → ContainersState
group_answered none s = record s { members = some [] }
group_answered (some summary) s = record s { members = some (add_members summary.members []) }

-- The controls that write the URL.
unfoldable pub set_view : Text → Params → Params
set_view v url = set_query (lit "view") (lit "grid") v url

unfoldable pub set_group : Text → Params → Params
set_group v url = set_query (lit "group") [] v url

unfoldable pub open_groups : Params → Params
open_groups url = set_query (lit "panel") [] (lit "groups") url

-- `toMap`: the points of each container, those of its last series.
unfoldable pub points_by_name :
    List ContainerSeries → List (Text × List SeriesPoint) → List (Text × List SeriesPoint)
points_by_name [] m = m
points_by_name (s ∷ series) m =
    points_by_name series (put text_eq s.container (or_default s.points []) m)

unfoldable pub all_containers : List WorkloadSnapshot → List Text
all_containers workloads = sort_by text_le (map (λ w. w.container) workloads)

-- The points of the last series of a container.
abbrev pub last_points :
    Text → List ContainerSeries → Option (List SeriesPoint) → Option (List SeriesPoint)
last_points c [] d = d
last_points c (s ∷ series) d =
    last_points c series (if text_eq s.container c then some (or_default s.points []) else d)

find_key-points_by_name :
    (c : Text) (series : List ContainerSeries) (m : List (Text × List SeriesPoint))
    → find_key text_eq c (points_by_name series m) ≡ last_points c series (find_key text_eq c m)
unfolding points_by_name
find_key-points_by_name c [] m = refl
find_key-points_by_name c (s ∷ series) m =
    rw
      (
        find_key-points_by_name c series (put text_eq s.container (or_default s.points []) m),
        find_key-put text_eq text-IsKeyTest c s.container (or_default s.points []) m,
      )
      refl
