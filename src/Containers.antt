-- ===== src/Containers.antt =====
-- web/src/pages/containers.tsx: the rows of the page, their order, the counts above them, and what a row shows.
pub mod Laws
pub mod Rows
pub mod View
pub mod Load
mod Tests
use argus_observability.Prelude.{
  ℕ, suc, ◌+◌, ◌*◌, ◌==◌, Bool, true, false, not, ◌&&◌, ◌||◌, Option, none, some, List, [], ◌∷◌,
  map, if◌then◌else◌, leb, ltb, length, take, filter, is_some, or_default,
}
use argus_observability.Prelude.Text.{Text, lit, text_eq, is_empty, has_text}
use argus_observability.Prelude.Sort.{sort_by}
use argus_observability.Api.Types.{
  WorkloadSnapshot, ContainerFleetStatus, FleetStatusResponse, ContainerSeries,
}
use argus_observability.Fleet.{
  state_of, is_unstable, BadgeVariant, outline, destructive, secondary, state_variant, Reason,
  instability_reason, is_text,
}
use argus_observability.Page.{PageSlice, page_slice, page_size}

pub record ContainerRow : Type 0 where
  pub container : Text
  pub workload : Option WorkloadSnapshot
  pub status : Option ContainerFleetStatus

-- `byName.set(row.container, row)`: a `Map` keeps the place of a key that it has.
unfoldable pub set_row : ContainerRow → List ContainerRow → List ContainerRow
set_row row [] = row ∷ []
set_row row (r ∷ rows) =
    let rest = set_row row rows in
    if text_eq r.container row.container then row ∷ rows else r ∷ rest

unfoldable pub row_of : Text → List ContainerRow → Option ContainerRow
row_of name [] = none
row_of name (r ∷ rows) =
    let rest = row_of name rows in if text_eq r.container name then some r else rest

unfoldable pub add_workloads : List WorkloadSnapshot → List ContainerRow → List ContainerRow
add_workloads [] rows = rows
add_workloads (w ∷ ws) rows =
    add_workloads ws
      (set_row (record { container = w.container; workload = some w; status = none }) rows)

-- `byName.get(s.container) ?? { container: s.container }` with the status set.
unfoldable pub with_status : ContainerFleetStatus → List ContainerRow → ContainerRow
with_status s rows =
    record (or_default (row_of s.container rows)
      (record { container = s.container; workload = none; status = none })) { status = some s }

unfoldable pub add_statuses : List ContainerFleetStatus → List ContainerRow → List ContainerRow
add_statuses [] rows = rows
add_statuses (s ∷ statuses) rows = add_statuses statuses (set_row (with_status s rows) rows)

unfoldable pub row_unstable : ContainerRow → Bool
row_unstable r = elim r.status [ none ↦ false | some s ↦ is_unstable s ]

abbrev pub cpu_of : ContainerRow → ℕ
cpu_of r = elim r.workload [ none ↦ 0 | some w ↦ w.cpu_usage ]

-- "The comparator of `rows` is not positive".
unfoldable pub row_before : ContainerRow → ContainerRow → Bool
row_before a b =
    if row_unstable a
    then (if row_unstable b then leb (cpu_of b) (cpu_of a) else true)
    else if row_unstable b
    then false
    else leb (cpu_of b) (cpu_of a)

abbrev pub statuses_of : Option FleetStatusResponse → List ContainerFleetStatus
statuses_of none = []
statuses_of (some fleet) = or_default fleet.containers []

unfoldable pub all_rows : List WorkloadSnapshot → Option FleetStatusResponse → List ContainerRow
all_rows workloads fleet = add_statuses (statuses_of fleet) (add_workloads workloads [])

-- `members` and `filter` of the page keep a row.
unfoldable pub keeps : Option (List Text) → Text → ContainerRow → Bool
keeps members choice r =
    (elim members [ none ↦ true | some names ↦ has_text names r.container ])
    && (if text_eq choice (lit "unstable") then row_unstable r else true)

unfoldable pub rows_of :
    List WorkloadSnapshot
    → Option FleetStatusResponse
    → Option (List Text)
    → Text
    → List ContainerRow
rows_of workloads fleet members choice =
    sort_by row_before (filter (keeps members choice) (all_rows workloads fleet))

pub record Counts : Type 0 where
  pub running : ℕ
  pub unstable : ℕ
  pub stopped : ℕ
  pub restarts : ℕ

abbrev pub add_if : Bool → ℕ → ℕ
add_if true n = suc n
add_if false n = n

abbrev pub row_state : ContainerRow → Option Text
row_state r = elim r.status [ none ↦ none | some s ↦ some (state_of s) ]

abbrev pub restarts_of : ContainerRow → ℕ
restarts_of r = elim r.status [ none ↦ 0 | some s ↦ s.restart_count ]

-- One round of the loop of `counts`.
unfoldable pub count_row : ContainerRow → Counts → Counts
count_row r c =
    let state = row_state r in
    record {
      running = add_if (is_text state (lit "running")) c.running;
      unstable = add_if (row_unstable r) c.unstable;
      stopped = add_if (is_text state (lit "exited") || is_text state (lit "dead")) c.stopped;
      restarts = c.restarts + restarts_of r;
    }

unfoldable pub count_rows : List ContainerRow → Counts → Counts
count_rows [] c = c
count_rows (r ∷ rows) c = count_rows rows (count_row r c)

unfoldable pub counts_of : List ContainerRow → Counts
counts_of rows = count_rows rows (record { running = 0; unstable = 0; stopped = 0; restarts = 0 })

abbrev pub hotter_row : ContainerRow → ContainerRow → Bool
hotter_row a b = leb (cpu_of b) (cpu_of a)

unfoldable pub top_names : List ContainerRow → List Text
top_names rows =
    map (λ r. r.container) (take 8 (sort_by hotter_row (filter (λ r. is_some r.workload) rows)))

unfoldable pub stacked_cpu : List ContainerRow → List ContainerSeries → List ContainerSeries
stacked_cpu rows series = filter (λ s. has_text (top_names rows) s.container) series

abbrev pub grid_limit : ℕ
grid_limit = 40

unfoldable pub with_workload : List ContainerRow → List ContainerRow
with_workload rows = filter (λ r. is_some r.workload) rows

unfoldable pub grid_rows : List ContainerRow → List ContainerRow
grid_rows rows = take grid_limit (with_workload rows)
