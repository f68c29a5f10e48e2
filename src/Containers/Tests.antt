-- ===== src/Containers/Tests.antt =====
-- A page of two containers, one of them dead.
use argus_observability.Prelude.{
  true, none, some, [], ◌∷◌, ◌≡◌, ◌↔◌, refl, if◌then◌else◌, Has, Ordered, filter,
}
use argus_observability.Prelude.Text.{lit, text_eq, occurs}
use argus_observability.Prelude.Sort.{sort_by}
use argus_observability.Api.Types.{WorkloadSnapshot, FleetStatusResponse}
use argus_observability.Fleet.{is_unstable, is_text, state_of}
use argus_observability.Fleet.Tests.{payments}
use argus_observability.Containers.{
  ContainerRow, row_unstable, all_rows, add_workloads, add_statuses, set_row, with_status, row_of,
  rows_of, row_before, keeps,
}
use argus_observability.Containers.Rows.{names, is_named, occurs-all_rows}
use argus_observability.Containers.Laws.{StandsBefore, rows_of-StandsBefore}

abbrev api : WorkloadSnapshot
api = record {
  container = lit "api";
  entity_uid = lit "c2";
  stack = none;
  service = none;
  labels = none;
  cpu_usage = 12000000;
  memory_usage = 5;
  memory_limit = 0;
  updated_at = [];
}

abbrev fleet : FleetStatusResponse
fleet = record {
  updated_at = [];
  summary = record {
    running = 0;
    exited = 0;
    restarting = 0;
    unhealthy = 0;
    dead = 1;
    total_restart_count = 0;
    replicas_up = 0;
    replicas_total = 1;
  };
  services = [];
  containers = some (payments ∷ []);
  events_24h = record { restarts_24h = 0; failures_24h = 1; oom_24h = 0; disconnect_24h = 0 };
}

rows_run : names (rows_of (api ∷ []) (some fleet) none []) ≡ lit "shop-payments-1" ∷ lit "api" ∷ []
unfolding rows_of all_rows add_workloads add_statuses set_row with_status row_of sort_by row_before
    keeps row_unstable is_unstable is_text state_of text_eq lit filter
rows_run = refl

occurs-all_rows_example :
    occurs (lit "api") (names (all_rows (api ∷ []) (some fleet)))
    ≡ (if is_named (lit "api") (api ∷ []) (some fleet) then 1 else 0)
occurs-all_rows_example = occurs-all_rows (api ∷ []) (some fleet) (lit "api")

abbrev dead_row : ContainerRow
dead_row = record { container = lit "shop-payments-1"; workload = none; status = some payments }

rows_of-StandsBefore_example :
    Ordered StandsBefore (rows_of (api ∷ []) (some fleet) none [])
    × (Has dead_row (rows_of (api ∷ []) (some fleet) none [])
        ↔ (Has dead_row (all_rows (api ∷ []) (some fleet)) × (keeps none [] dead_row ≡ true)))
rows_of-StandsBefore_example = rows_of-StandsBefore (api ∷ []) (some fleet) none [] dead_row
