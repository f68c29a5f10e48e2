-- ===== src/Api/Tests.antt =====
-- Runs of the calls, and the theorems at concrete inputs.
use argus_observability.Prelude.{false, none, some, [], ◌∷◌, ◌≡◌, refl}
use argus_observability.Prelude.Text.{lit}
use argus_observability.Prelude.Decimal.{decimal}
use argus_observability.Page.Hub.{num}
use argus_observability.Api.Types.{LogSearchParams}
use argus_observability.Api.Fetch.{ok, err, Response}
use argus_observability.Api.Calls.{Platform, search_logs_params, get_json, set_present, set_chosen}

-- The call of web/src/lib/api.test.ts: sentinels are left out.
abbrev errors_search : LogSearchParams
errors_search = record {
  q = some (lit "oom");
  since = some (lit "1h");
  level = some (lit "all");
  container = some (lit "all");
  topic = some (lit "all");
  group = none;
  trace_id = none;
  limit = none;
  offset = none;
}

search_runs :
    search_logs_params errors_search
    ≡ (lit "since", lit "1h")
      ∷ (lit "limit", lit "50")
      ∷ (lit "offset", lit "0")
      ∷ (lit "q", lit "oom")
      ∷ []
unfolding search_logs_params set_present set_chosen decimal
search_runs = refl

-- A hub that is down.
abbrev down : Response
down = record {
  is_ok = false;
  status = 503;
  status_text = lit "Service Unavailable";
  json = ok (num 0);
}

abbrev browser : Platform
browser = record {
  base = [];
  fetch = λ c. ok down;
  to_string = λ q. [];
  encode = λ s. s;
  group_json = λ g. [];
}

down_runs : get_json browser (lit "/health") ≡ err (lit "503 Service Unavailable")
unfolding get_json decimal lit
down_runs = refl
