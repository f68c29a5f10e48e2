-- ===== src/Overview/Tests.antt =====
-- A hub whose load fails after one that succeeded.
use argus_observability.Prelude.{◌+◌, false, none, some, List, [], ◌∷◌, ◌≡◌, refl, filter, min}
use argus_observability.Prelude.Text.{Text, lit}
use argus_observability.Prelude.Sort.{sort_by, insert_by}
use argus_observability.Api.Types.{HttpServiceSummary, FleetStatusResponse, Measure}
use argus_observability.Overview.{
  Data, OverviewState, overview_opened, Answers, overview_answered, data_of, has_errors,
  more_errors, Words, overview_list,
}
use argus_observability.Overview.Laws.{after}
use argus_observability.Overview.Total.{listed, unlisted, cards_total, overview_total}

abbrev summary : Text → Measure → HttpServiceSummary
summary service rate = record {
  service = service;
  requests = 10;
  errors = 1;
  error_rate = rate;
  avg_latency_ms = 0;
  max_latency_ms = 0;
}

abbrev no_fleet : FleetStatusResponse
no_fleet = record {
  updated_at = lit "t";
  summary = record {
    running = 0;
    exited = 0;
    restarting = 0;
    unhealthy = 0;
    dead = 0;
    total_restart_count = 0;
    replicas_up = 0;
    replicas_total = 0;
  };
  services = [];
  containers = some [];
  events_24h = record { restarts_24h = 0; failures_24h = 0; oom_24h = 0; disconnect_24h = 0 };
}

abbrev answered : Answers
answered = record {
  health = some tt;
  alerts = some [];
  slos = some [];
  fleet = some no_fleet;
  http = some (summary (lit "api") 20000 ∷ summary (lit "db") 100 ∷ summary (lit "web") 60000 ∷ []);
}

abbrev down : Answers
down = record { health = none; alerts = none; slos = none; fleet = none; http = none }

abbrev runs : List Answers
runs = answered ∷ down ∷ []

http_run :
    (after (lit "down") runs overview_opened).shown.http
    ≡ summary (lit "web") 60000 ∷ summary (lit "api") 20000 ∷ []
unfolding overview_answered data_of has_errors more_errors filter sort_by insert_by
http_run = refl

abbrev words : Words
words = record {
  t = λ key. key;
  slo_of = λ s. s;
  http_detail = λ v. [];
  reason_text = λ r. [];
  encode = λ s. s;
}

abbrev data_shown : Data
data_shown = record { alerts = []; slos = []; unstable = []; http = summary (lit "web") 60000 ∷ [] }

abbrev state_shown : OverviewState
state_shown = record { shown = data_shown; loading = false; error = none }

overview_total_example :
    (listed (overview_list words state_shown) ≡ min 8 (cards_total data_shown))
    × (listed (overview_list words state_shown) + unlisted (overview_list words state_shown)
        ≡ cards_total data_shown)
overview_total_example = overview_total words state_shown refl
