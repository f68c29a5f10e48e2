-- ===== src/Traces/Tests.antt =====
-- A trace of two spans, and the services of the list.
use argus_observability.Prelude.{ℕ, ◌+◌, ◌*◌, ◌≤◌, false, none, [], ◌∷◌, ◌≡◌, refl, arith}
use argus_observability.Prelude.Text.{Text, lit, text_eq, has_text, add_text}
use argus_observability.Api.Types.{TraceSummary, TraceSpan}
use argus_observability.Prelude.Sort.{sort_by}
use argus_observability.Traces.{services_of, add_services, text_le, bar_of}
use argus_observability.Traces.Laws.{bar_of_lem}

abbrev summary : Text → TraceSummary
summary service = record {
  trace_id = lit "t1";
  source = lit "logs";
  service = service;
  container = [];
  name = [];
  start_ts = [];
  end_ts = [];
  duration_ms = 0;
  span_count = 1;
  error = false;
}

services_run :
    services_of (summary (lit "web") ∷ summary [] ∷ summary (lit "api") ∷ summary (lit "web") ∷ [])
    ≡ lit "api" ∷ lit "web" ∷ []
unfolding services_of add_services text_le sort_by add_text has_text text_eq lit
services_run = refl

abbrev span : Text → TraceSpan
span start = record {
  trace_id = lit "t1";
  span_id = lit "s1";
  parent_span_id = none;
  name = [];
  service = [];
  container = [];
  entity_uid = none;
  start_ts = start;
  end_ts = [];
  duration_ms = 0;
  status = lit "ok";
  kind = lit "log";
  source = lit "logs";
  attributes = none;
}

-- A clock that reads the number of a text's units.
abbrev time : Text → ℕ
time [] = 0
time (c ∷ text) = 1 + time text

bar_of_lem_example :
    ((bar_of 1000000 250000 500000).left + (bar_of 1000000 250000 500000).width ≤ 200 * 1000000)
    × (500000 * 200 ≤ (bar_of 1000000 250000 500000).width)
bar_of_lem_example = bar_of_lem 1000000 250000 500000 (omega arith)
