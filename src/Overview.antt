-- ===== src/Overview.antt =====
-- web/src/pages/overview.tsx: what needs action: the alerts, the objectives, the unstable containers and the services
-- with errors.
pub mod Laws
pub mod Total
mod Tests
use argus_observability.Prelude.{
  ℕ, ◌+◌, ◌-◌, ◌*◌, Bool, true, false, not, ◌&&◌, ◌||◌, Option, none, some, List, [], ◌∷◌, ◌++◌,
  map, filter, any, take, length, ◌==◌, if◌then◌else◌, or_default, leb, ltb, ◌>>=◌,
}
use argus_observability.Prelude.Text.{Text, lit, text_eq, is_empty}
use argus_observability.Prelude.Sort.{sort_by}
use argus_observability.Api.Types.{
  ActiveAlert, SloStatus, ContainerFleetStatus, HttpServiceSummary, FleetStatusResponse, Measure,
}
use argus_observability.Fleet.{
  BadgeVariant, destructive, secondary, outline, is_unstable, Reason, instability_reason,
  severity_variant, severity_label,
}
use argus_observability.Format.{MeterTone, default, warning, critical, slo_metrics_link}
use argus_observability.Language.Catalog.{localize_alert_title}

-- 0.01, 0.05 and 30 in millionths.
abbrev http_error_rate : Measure
http_error_rate = 10000

abbrev high_error_rate : Measure
high_error_rate = 50000

abbrev low_budget : Measure
low_budget = 30000000

abbrev pub list_limit : ℕ
list_limit = 8

pub record Data : Type 0 where
  pub alerts : List ActiveAlert
  pub slos : List SloStatus
  pub unstable : List ContainerFleetStatus
  pub http : List HttpServiceSummary

abbrev pub empty_data : Data
empty_data = record { alerts = []; slos = []; unstable = []; http = [] }

pub record OverviewState : Type 0 where
  pub shown : Data
  pub loading : Bool
  pub error : Option Text

abbrev pub overview_opened : OverviewState
overview_opened = record { shown = empty_data; loading = true; error = none }

-- The answers of one load, `none` where a request fails.
pub record Answers : Type 0 where
  pub health : Option (Unit {0})
  pub alerts : Option (List ActiveAlert)
  pub slos : Option (List SloStatus)
  pub fleet : Option FleetStatusResponse
  pub http : Option (List HttpServiceSummary)

unfoldable pub needs_budget : SloStatus → Bool
needs_budget s = s.breached || ltb s.error_budget_remaining low_budget

unfoldable pub has_errors : HttpServiceSummary → Bool
has_errors s = ltb 0 s.requests && leb http_error_rate s.error_rate

unfoldable pub more_errors : HttpServiceSummary → HttpServiceSummary → Bool
more_errors a b = leb b.error_rate a.error_rate

-- The data of the answers. A missing list of containers makes `fleet.containers.filter` throw, as a failed request.
unfoldable pub data_of : Answers → Option Data
data_of a = do
  _health ← a.health
  alerts ← a.alerts
  slos ← a.slos
  fleet ← a.fleet
  http ← a.http
  containers ← fleet.containers
  some (record {
    alerts = alerts;
    slos = filter needs_budget slos;
    unstable = filter is_unstable containers;
    http = sort_by more_errors (filter has_errors http);
  })

-- `.then`, `.catch` and `.finally` of a load; `message` is the translation of `common.hubDown`.
unfoldable pub overview_answered : Text → Answers → OverviewState → OverviewState
unfolding data_of
overview_answered message a s = elim (data_of a) [
  | none ↦ record { shown = s.shown; loading = false; error = some message }
  | some d ↦ record { shown = d; loading = false; error = none }
]

unfoldable pub breached_of : Data → ℕ
breached_of d = length (filter (λ s. s.breached) d.slos)

pub record ActionItem : Type 0 where
  pub key : Text
  pub title : Text
  pub detail : Text
  pub variant : BadgeVariant
  pub label : Text
  pub to : Text

-- The texts that the translations and the formats give.
pub record Words : Type 0 where
  pub t : Text → Text
  pub slo_of : Text → Text
  pub http_detail : Measure → Text
  pub reason_text : Reason → Text
  pub encode : Text → Text

module _ (words : Words) where
  abbrev logs_link : Text → Text
  logs_link container = lit "/logs?container=" ++ words.encode container

  unfoldable pub alert_item : ActiveAlert → ActionItem
  alert_item a = record {
    key = lit "alert-" ++ (a.rule_id ++ (lit "-" ++ a.entity_uid));
    title = localize_alert_title words.t a.rule_id a.title;
    detail = a.container;
    variant = or_default (severity_variant (or_default a.severity [])) outline;
    label = severity_label words.t (or_default a.severity []);
    to = if is_empty a.container then lit "/problems" else logs_link a.container;
  }

  unfoldable pub slo_item : SloStatus → ActionItem
  slo_item s = record {
    key = lit "slo-" ++ s.slo.id;
    title = s.slo.name;
    detail = words.slo_of s.slo.service;
    variant = if s.breached then destructive else secondary;
    label = words.t (if s.breached then lit "overview.violated" else lit "overview.lowMargin");
    to = slo_metrics_link words.encode s.slo;
  }

  unfoldable pub container_item : ContainerFleetStatus → ActionItem
  container_item c = record {
    key = lit "container-" ++ c.entity_uid;
    title = c.container;
    detail = words.reason_text (instability_reason c);
    variant = destructive;
    label = words.t (lit "overview.unstableBadge");
    to = logs_link c.container;
  }

  unfoldable pub http_item : HttpServiceSummary → ActionItem
  http_item s = record {
    key = lit "http-" ++ s.service;
    title = s.service;
    detail = words.http_detail (s.error_rate * 100);
    variant = if leb high_error_rate s.error_rate then destructive else secondary;
    label =
        severity_label words.t
          (if leb high_error_rate s.error_rate then lit "critical" else lit "warning");
    to = lit "/metrics?mode=compare&metric=http.error_rate&service=" ++ words.encode s.service;
  }

  unfoldable pub items_of : Data → List ActionItem
  unfolding alert_item slo_item container_item http_item
  items_of d =
      map alert_item d.alerts
      ++ (map slo_item d.slos ++ (map container_item d.unstable ++ map http_item d.http))

-- A card: its value, its tone, the key of its hint with the count, and its link.
pub record Card : Type 0 where
  pub value : ℕ
  pub tone : MeterTone
  pub hint : Option (Text × Option ℕ)
  pub to : Text

abbrev critical_alert : ActiveAlert → Bool
critical_alert a = text_eq (or_default a.severity []) (lit "critical")

unfoldable pub alerts_card : Data → Card
alerts_card d = record {
  value = length d.alerts;
  tone =
      if any critical_alert d.alerts
      then critical
      else if ltb 0 (length d.alerts)
      then warning
      else default;
  hint = none;
  to = lit "/problems";
}

unfoldable pub slos_card : Data → Card
unfolding breached_of
slos_card d = record {
  value = breached_of d;
  tone =
      if ltb 0 (breached_of d)
      then critical
      else if ltb 0 (length d.slos)
      then warning
      else default;
  hint =
      if ltb (breached_of d) (length d.slos)
      then some (lit "overview.lowBudget", some (length d.slos - breached_of d))
      else none;
  to = lit "/problems?tab=slos";
}

unfoldable pub unstable_card : Data → Card
unstable_card d = record {
  value = length d.unstable;
  tone = if ltb 0 (length d.unstable) then critical else default;
  hint = none;
  to = lit "/containers?filter=unstable&view=table";
}

unfoldable pub http_card : Data → Card
http_card d = record {
  value = length d.http;
  tone = if ltb 0 (length d.http) then warning else default;
  hint = some (lit "overview.httpHint", none);
  to = lit "/metrics?mode=compare&metric=http.error_rate";
}

-- The list below the cards: nothing, the note that all is well, or the items with the number of those left out.
pub data OverviewList : Type 0 where
  no_list all_well : OverviewList
  needs_action : List ActionItem → Option ℕ → OverviewList

abbrev pub left_out : List ActionItem → Option ℕ
left_out items = if ltb list_limit (length items) then some (length items - list_limit) else none

unfoldable pub overview_list : Words → OverviewState → OverviewList
unfolding items_of
overview_list words s =
    let items = items_of words s.shown in
    if s.loading
    then no_list
    else if length items == 0
    then elim s.error [ none ↦ all_well | some message ↦ no_list ]
    else needs_action (take list_limit items) (left_out items)
