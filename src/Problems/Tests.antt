-- ===== src/Problems/Tests.antt =====
-- Containers that are down, a change of the filters, and two objectives.
use argus_observability.Prelude.{true, false, none, some, List, [], ◌∷◌, ◌≡◌, if◌then◌else◌}
use argus_observability.Prelude.Text.{lit, text_eq}
use argus_observability.Query.{Params, get, query_value}
use argus_observability.Api.Types.{ContainerFleetStatus, SloStatus, Measure}
use argus_observability.Problems.History.{reset_page, reset_page_lem}

abbrev crashed : ContainerFleetStatus
crashed = record {
  container = lit "api";
  entity_uid = lit "docker:api";
  service = none;
  state = some (lit "exited");
  health = none;
  restart_count = 1;
  exit_code = some 137;
  oom_killed = some true;
  status_text = none;
  disposition = some (lit "oom");
  updated_at = none;
}

abbrev third : Params
third = (lit "page", lit "3") ∷ []

abbrev second : Params
second = (lit "page", lit "2") ∷ []

reset_page_lem_example :
    (query_value (lit "page") (lit "1") (reset_page (lit "6h") (lit "1h") third).1 ≡ (
      if text_eq (lit "1h") (lit "6h") then query_value (lit "page") (lit "1") third else lit "1"))
    × (get (lit "since") (reset_page (lit "6h") (lit "1h") third).1 ≡ get (lit "since") third)
    × ((reset_page (lit "6h") (reset_page (lit "6h") (lit "1h") third).0 second).1 ≡ second)
unfolding lit
reset_page_lem_example = reset_page_lem (lit "6h") (lit "1h") (lit "since") third second (λ e. cc)

abbrev objective : Measure → SloStatus
objective left = record {
  slo = record {
    id = lit "1";
    name = lit "api";
    service = lit "api";
    group_id = none;
    sli_metric = lit "availability";
    target = 99000000;
    window_hours = 24;
    latency_threshold_ms = 0;
    created_at = none;
  };
  compliance = 99000000;
  error_budget_remaining = left;
  good_events = 99;
  total_events = 100;
  p95_latency_ms = 0;
  breached = false;
  evaluated_at = lit "t";
}

abbrev objectives : List SloStatus
objectives = objective 50 ∷ objective 20 ∷ []
