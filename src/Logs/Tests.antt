-- ===== src/Logs/Tests.antt =====
-- A page of logs that follows a trace.
use argus_observability.Prelude.{◌-◌, ◌*◌, some, [], ◌≡◌, refl}
use argus_observability.Prelude.Text.{lit}
use argus_observability.Prelude.Decimal.{decimal}
use argus_observability.Query.{get}
use argus_observability.Api.Calls.{search_logs_params}
use argus_observability.Logs.{Filters, lines_request}
use argus_observability.Logs.Lines.{format_trace_short}
use argus_observability.Logs.Laws.{Scope, search_logs_params-lines_request}

abbrev filters : Filters
filters = record {
  mode = lit "lines";
  q = [];
  trace_id = lit "4bf92f3577b34da6";
  since = lit "1h";
  level = lit "error";
  topic = lit "all";
  container = lit "api";
  group = lit "shop";
}

short_run : format_trace_short (lit "4bf92f35") ≡ lit "4bf92f35"
unfolding format_trace_short lit
short_run = refl

search_logs_params-lines_request_example :
    (get (lit "since") (search_logs_params (lines_request filters 3)) ≡ some (lit "1h"))
    × (get (lit "offset") (search_logs_params (lines_request filters 3))
        ≡ some (decimal ((3 - 1) * 50)))
    × Scope filters (search_logs_params (lines_request filters 3))
search_logs_params-lines_request_example = search_logs_params-lines_request filters 3
