-- ===== src/Api/Calls.antt =====
-- The calls of api.ts. What the browser does (`fetch`, the serialisation of a query, `encodeURIComponent`,
-- `JSON.stringify`) is the parameter `Platform`; a promise is its outcome.
use argus_observability.Prelude.{
  ℕ, ◌||◌, Option, none, some, List, [], ◌∷◌, ◌++◌, if◌then◌else◌, or_default,
}
use argus_observability.Prelude.Text.{Text, lit, text_eq, is_empty}
use argus_observability.Prelude.Decimal.{decimal}
use argus_observability.Page.Hub.{Json, ListPage, as_page, as_array}
use argus_observability.Query.{Params, set}
use argus_observability.Api.Types.{LogSearchParams, LogPatternParams, WorkloadGroupInput}
use argus_observability.Api.Fetch.{Result, Response, map_result, request, request_status}

pub record Call : Type 0 where
  pub method : Text
  pub url : Text
  pub body : Option Text

pub record Platform : Type 0 where
  pub base : Text
  pub fetch : Call → Result Response
  pub to_string : Params → Text
  pub encode : Text → Text
  pub group_json : WorkloadGroupInput → Text

-- `if (value) p.set(key, value)`.
unfoldable pub set_present : Text → Option Text → Params → Params
unfolding set
set_present key none p = p
set_present key (some v) p = if is_empty v then p else set key v p

-- `if (value && value !== "all") p.set(key, value)`.
unfoldable pub set_chosen : Text → Option Text → Params → Params
unfolding set text_eq lit
set_chosen key none p = p
set_chosen key (some v) p = if is_empty v || text_eq v (lit "all") then p else set key v p

unfoldable pub metric_series_params : Text → Option Text → Option Text → Option Text → Params
unfolding set_present
metric_series_params metric since container group = set_present (lit "group") group (
    set_present (lit "container") container
      ((lit "metric", metric) ∷ (lit "since", or_default since (lit "1h")) ∷ []))

-- The three parameters of a paged call.
unfoldable pub page_params : Text → Option ℕ → Option ℕ → Params
unfolding decimal
page_params since limit offset =
    (lit "since", since)
    ∷ (lit "limit", decimal (or_default limit 50))
    ∷ (lit "offset", decimal (or_default offset 0))
    ∷ []

unfoldable pub events_params : Option Text → Option Text → Option ℕ → Option ℕ → Params
unfolding set_present page_params
events_params entity_uid since limit offset =
    set_present (lit "entity_uid") entity_uid
      (page_params (or_default since (lit "24h")) limit offset)

unfoldable pub search_logs_params : LogSearchParams → Params
search_logs_params params = set_present (lit "trace_id") params.trace_id (
    set_present (lit "group") params.group (
      set_chosen (lit "topic") params.topic (
        set_chosen (lit "container") params.container (
          set_chosen (lit "level") params.level (
            set_present (lit "q") params.q (
              set (lit "offset") (decimal (or_default params.offset 0)) (
                set (lit "limit") (decimal (or_default params.limit 50))
                  (set (lit "since") (or_default params.since (lit "1h")) []))))))))

unfoldable pub insights_params : Option Text → Option Text → Params
unfolding set_present
insights_params since group =
    set_present (lit "group") group ((lit "since", or_default since (lit "1h")) ∷ [])

unfoldable pub log_patterns_params : LogPatternParams → Params
unfolding set_present set_chosen
log_patterns_params params = set_present (lit "group") params.group (
    set_chosen (lit "container") params.container
      (set_present (lit "q") params.q ((lit "since", or_default params.since (lit "1h")) ∷ [])))

unfoldable pub traces_params : Option Text → Option Text → Option ℕ → Option ℕ → Params
unfolding set_present page_params
traces_params since service limit offset =
    set_present (lit "service") service (page_params (or_default since (lit "1h")) limit offset)

module _ (p : Platform) where
  abbrev pub get_call : Text → Call
  get_call path = record { method = lit "GET"; url = p.base ++ path; body = none }

  -- `request(path)`.
  unfoldable pub get_json : Text → Result Json
  unfolding request
  get_json path = request (p.fetch (get_call path))

  -- `path?${q}` of a query built by `URLSearchParams`.
  abbrev pub with_query : Text → Params → Text
  with_query path q = path ++ (lit "?" ++ p.to_string q)

  -- `path?since=${encodeURIComponent(since)}`.
  abbrev pub with_since : Text → Text → Text
  with_since path since = path ++ (lit "?since=" ++ p.encode since)

  pub get_health : Result Json
  get_health = get_json (lit "/health")

  pub fetch_metric_series : Text → Option Text → Option Text → Option Text → Result Json
  fetch_metric_series metric since container group = get_json (
      with_query (lit "/api/v1/metrics/series") (metric_series_params metric since container group))

  unfoldable pub list_workloads : Option Text → Result (List Json)
  list_workloads since =
      map_result as_array
        (get_json (with_since (lit "/api/v1/workloads") (or_default since (lit "30m"))))

  pub list_events : Option Text → Option Text → Option ℕ → Option ℕ → Result (ListPage Json)
  list_events entity_uid since limit offset =
      map_result as_page
        (get_json (with_query (lit "/api/v1/events") (events_params entity_uid since limit offset)))

  unfoldable pub search_logs : LogSearchParams → Result (ListPage Json)
  search_logs params =
      map_result as_page
        (get_json (with_query (lit "/api/v1/logs/search") (search_logs_params params)))

  pub list_workload_groups : Result (List Json)
  list_workload_groups = map_result as_array (get_json (lit "/api/v1/workload-groups"))

  pub discover_workload_groups : Result (List Json)
  discover_workload_groups = map_result as_array (get_json (lit "/api/v1/workload-groups/discover"))

  pub get_workload_group_summary : Text → Option Text → Result Json
  get_workload_group_summary id since = get_json (
      with_since (lit "/api/v1/workload-groups/" ++ (p.encode id ++ lit "/summary"))
        (or_default since (lit "30m")))

  pub create_workload_group : WorkloadGroupInput → Result Json
  unfolding request
  create_workload_group input = request (
      p.fetch (record {
        method = lit "POST";
        url = p.base ++ lit "/api/v1/workload-groups";
        body = some (p.group_json input);
      }))

  pub delete_workload_group : Text → Result (Unit {0})
  unfolding request_status
  delete_workload_group id = request_status (
      p.fetch (record {
        method = lit "DELETE";
        url = p.base ++ (lit "/api/v1/workload-groups/" ++ p.encode id);
        body = none;
      }))

  pub fetch_insights : Option Text → Option Text → Result Json
  fetch_insights since group =
      get_json (with_query (lit "/api/v1/insights") (insights_params since group))

  pub fetch_fleet_status : Result Json
  fetch_fleet_status = get_json (lit "/api/v1/fleet/status")

  pub fetch_metric_catalog : Result (List Json)
  fetch_metric_catalog = map_result as_array (get_json (lit "/api/v1/metrics/catalog"))

  pub fetch_http_summary : Option Text → Result (List Json)
  fetch_http_summary since =
      map_result as_array
        (get_json (with_since (lit "/api/v1/metrics/http/summary") (or_default since (lit "1h"))))

  pub fetch_log_patterns : LogPatternParams → Result (List Json)
  fetch_log_patterns params =
      map_result as_array
        (get_json (with_query (lit "/api/v1/logs/patterns") (log_patterns_params params)))

  pub fetch_topology : Option Text → Result Json
  fetch_topology since =
      get_json (with_since (lit "/api/v1/topology") (or_default since (lit "24h")))

  pub fetch_active_alerts : Result (List Json)
  fetch_active_alerts = map_result as_array (get_json (lit "/api/v1/alerts/active"))

  pub fetch_traces : Option Text → Option Text → Option ℕ → Option ℕ → Result (ListPage Json)
  fetch_traces since service limit offset =
      map_result as_page
        (get_json (with_query (lit "/api/v1/traces") (traces_params since service limit offset)))

  pub fetch_trace : Text → Option Text → Result Json
  fetch_trace trace_id since =
      get_json
        (with_since (lit "/api/v1/traces/" ++ p.encode trace_id) (or_default since (lit "24h")))

  pub fetch_slos : Result (List Json)
  fetch_slos = map_result as_array (get_json (lit "/api/v1/slos"))

  pub fetch_slo_statuses : Result (List Json)
  fetch_slo_statuses = map_result as_array (get_json (lit "/api/v1/slos/status"))
