-- ===== src/Containers/View.antt =====
-- web/src/pages/containers.tsx: what the page and one line of its table show.
pub mod Laws
use argus_observability.Prelude.{
  ℕ, ◌+◌, Bool, true, false, not, ◌&&◌, ◌||◌, ◌==◌, Option, none, some, List, [], ◌∷◌,
  if◌then◌else◌, ltb, length, is_some,
}
use argus_observability.Prelude.Text.{Text, lit, text_eq, is_empty}
use argus_observability.Api.Types.{
  Measure, WorkloadSnapshot, ContainerFleetStatus, FleetStatusResponse, ContainerSeries,
  ServiceReplicaStatus,
}
use argus_observability.Fleet.{
  state_of, is_unstable, BadgeVariant, outline, destructive, secondary, state_variant, Reason,
  instability_reason, is_text,
}
use argus_observability.Page.{PageSlice, page_slice, page_size}
use argus_observability.Containers.{
  ContainerRow, Counts, counts_of, row_unstable, stacked_cpu, with_workload, grid_rows,
}

-- The badge of the state: its variant and the state that `stateLabel` names.
pub record StateBadge : Type 0 where
  pub variant : BadgeVariant
  pub state : Text

unfoldable pub state_badge : Option ContainerFleetStatus → Option StateBadge
state_badge none = none
state_badge (some s) = elim s.disposition [
  | none ↦
      if is_empty (state_of s)
      then none
      else some (record { variant = state_variant (state_of s); state = state_of s })
  | some d ↦
      if is_empty d
      then (if is_empty (state_of s)
          then none
          else some (record { variant = state_variant (state_of s); state = state_of s }))
      else some (record {
        variant = if text_eq d (lit "intentional") then outline else destructive;
        state = d;
      })
]

-- `cpu_usage > 80`, in millionths.
abbrev pub cpu_high : WorkloadSnapshot → Bool
cpu_high w = ltb 80000000 w.cpu_usage

pub record Cells : Type 0 where
  pub highlighted : Bool
  pub state : Option StateBadge
  pub cpu : Option (BadgeVariant × Measure)
  pub memory : Option (Measure × Option Measure)
  pub restarts : Option ℕ
  pub restarts_warn : Bool
  pub attention : Option Reason

unfoldable pub cells_of : ContainerRow → Cells
unfolding state_badge
cells_of row = record {
  highlighted = row_unstable row;
  state = state_badge row.status;
  cpu = elim row.workload [
    | none ↦ none
    | some w ↦ some (if cpu_high w then destructive else secondary, w.cpu_usage)
  ];
  memory = elim row.workload [
    | none ↦ none
    | some w ↦ some (w.memory_usage, if ltb 0 w.memory_limit then some w.memory_limit else none)
  ];
  restarts = elim row.status [ none ↦ none | some s ↦ some s.restart_count ];
  restarts_warn = elim row.status [ none ↦ false | some s ↦ ltb 3 s.restart_count ];
  attention = elim row.status [
    | none ↦ none
    | some s ↦ if is_unstable s then some (instability_reason s) else none
  ];
}

pub data CardTone : Type 0 where
  default_tone warning_tone critical_tone : CardTone

-- The body below the cards: the grid of charts, or the table with its pages.
pub data Body : Type 0 where
  grid :
      (chart : List ContainerSeries) (cards : List ContainerRow) (with_metrics : ℕ)
      (is_loading is_blank sees_table : Bool)
      → Body
  table :
      (is_loading is_blank : Bool) (page : PageSlice ContainerRow)
      (services : List ServiceReplicaStatus)
      → Body

pub record ContainersView : Type 0 where
  pub counts : Counts
  pub issues_tone : CardTone
  pub restarts_tone : CardTone
  pub issues_link : Bool
  pub banner : Bool
  pub body : Body

abbrev replicas_of : Option FleetStatusResponse → Text → List ServiceReplicaStatus
replicas_of none group = []
replicas_of (some fleet) group = if is_empty group then fleet.services else []

unfoldable pub body_of :
    Bool
    → List ContainerRow
    → List ContainerSeries
    → Option FleetStatusResponse
    → Text
    → Text
    → ℕ
    → Body
body_of loading rows series fleet view group page =
    if text_eq view (lit "grid")
    then grid (stacked_cpu rows series) (grid_rows rows) (length (with_workload rows)) loading
        (not loading && length (grid_rows rows) == 0)
        (ltb (length (grid_rows rows)) (length (with_workload rows)))
    else table (loading && length rows == 0) (not loading && length rows == 0)
        (page_slice rows page page_size) (replicas_of fleet group)

unfoldable pub view_of :
    Bool
    → List ContainerRow
    → List ContainerSeries
    → Option FleetStatusResponse
    → Text
    → Text
    → Text
    → ℕ
    → ContainersView
unfolding body_of
view_of loading rows series fleet view group choice page =
    let counts = counts_of rows in
    record {
      counts = counts;
      issues_tone = if ltb 0 counts.unstable then critical_tone else default_tone;
      restarts_tone = if ltb 10 counts.restarts then warning_tone else default_tone;
      issues_link = ltb 0 counts.unstable && not (text_eq choice (lit "unstable"));
      banner = text_eq choice (lit "unstable");
      body = body_of loading rows series fleet view group page;
    }
