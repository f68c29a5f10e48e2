-- ===== src/Problems.antt =====
-- web/src/pages/problems.tsx and views/problems-now.tsx: the page of problems, and the problems that stand now.
pub mod History
pub mod Slos
pub mod Laws
mod Tests
use argus_observability.Prelude.{
  ℕ, ◌+◌, ◌==◌, Bool, true, false, not, ◌&&◌, ◌||◌, Option, none, some, List, [], ◌∷◌, ◌++◌, map,
  filter, length, if◌then◌else◌, or_default, ltb, ◌>>=◌,
}
use argus_observability.Prelude.Text.{Text, lit, text_eq, is_empty}
use argus_observability.Query.{Params, patch, query_value}
use argus_observability.Api.Types.{
  ActiveAlert, Insight, InsightsResponse, ContainerFleetStatus, FleetStatusResponse, Measure,
}
use argus_observability.Fleet.{
  BadgeVariant, destructive, outline, is_text, severity_variant, severity_label,
}
use argus_observability.Language.Catalog.{
  localize_alert_title, localize_alert_summary, localize_insight_theme,
}

-- `defaultSince[tab] ?? "1h"`.
unfoldable pub default_since : Text → Text
default_since tab = if text_eq tab (lit "history") then lit "24h" else lit "1h"

unfoldable pub choose_tab : Text → Params → Params
choose_tab v url =
    patch ((lit "tab", some v) ∷ (lit "since", none) ∷ []) ((lit "tab", lit "now") ∷ []) url

-- The view under the tabs, with the time range that it is given.
pub data ProblemsView : Type 0 where
  slo_list : ProblemsView
  event_history : Text → ProblemsView
  problems_now : Text → Text → ProblemsView

unfoldable pub problems_view : Params → ProblemsView
problems_view url =
    let tab = query_value (lit "tab") (lit "now") url in
    let since = query_value (lit "since") (default_since tab) url in
    if text_eq tab (lit "slos")
    then slo_list
    else if text_eq tab (lit "history")
    then event_history since
    else problems_now since (query_value (lit "group") [] url)

pub record NowState : Type 0 where
  pub alerts : List ActiveAlert
  pub insights : List Insight
  pub fleet : List ContainerFleetStatus
  pub loading : Bool
  pub error : Option Text

abbrev pub now_opened : NowState
now_opened = record { alerts = []; insights = []; fleet = []; loading = true; error = none }

-- The answers of one load, `none` where a request fails.
pub record NowAnswers : Type 0 where
  pub alerts : Option (List ActiveAlert)
  pub insights : Option InsightsResponse
  pub fleet : Option FleetStatusResponse

-- The state that the three answers give, if none fails.
unfoldable pub now_of : NowAnswers → Option NowState
now_of a = do
  alerts ← a.alerts
  i ← a.insights
  f ← a.fleet
  some (record {
    alerts = alerts;
    insights = or_default i.insights [];
    fleet = or_default f.containers [];
    loading = false;
    error = none;
  })

-- `.then`, `.catch` and `.finally`; `message` is the translation of `problems.loadError`.
unfoldable pub now_answered : Text → NowAnswers → NowState → NowState
unfolding now_of
now_answered message a s =
    or_default (now_of a) (record s { loading = false; error = some message })

unfoldable pub is_failed : ContainerFleetStatus → Bool
is_failed c = is_text c.disposition (lit "unexpected") || is_text c.disposition (lit "oom")

unfoldable pub is_stopped : ContainerFleetStatus → Bool
is_stopped c = is_text c.disposition (lit "intentional")

-- A row of a container that is down: the key of its detail with the exit code, its badge, and the key of the label.
pub record DownRow : Type 0 where
  pub container : Text
  pub detail : Text × Option ℕ
  pub variant : BadgeVariant
  pub label : Text

unfoldable pub down_row : ContainerFleetStatus → DownRow
down_row c = record {
  container = c.container;
  detail =
      if is_text c.disposition (lit "oom")
      then (lit "problems.oomDetail", none)
      else if is_text c.disposition (lit "intentional")
      then (lit "problems.intentionalDetail", some (or_default c.exit_code 0))
      else (lit "problems.unexpectedDetail", some (or_default c.exit_code 0));
  variant = if is_text c.disposition (lit "intentional") then outline else destructive;
  label = lit "state." ++ or_default c.disposition (lit "undefined");
}

module _ (t : Text → Text) where
  -- A row of an alert; `value_now` writes its value, `since` its container and time.
  pub record AlertRow : Type 0 where
    pub title : Text
    pub summary : Option Text
    pub variant : BadgeVariant
    pub label : Text

  unfoldable pub alert_row : (Measure → Text) → ActiveAlert → AlertRow
  alert_row value_now a = record {
    title = localize_alert_title t a.rule_id a.title;
    summary =
        if not (is_empty a.summary) || not (a.value == 0)
        then some (localize_alert_summary t a.rule_id (value_now a.value) a.summary)
        else none;
    variant = or_default (severity_variant (or_default a.severity [])) outline;
    label = severity_label t (or_default a.severity []);
  }

-- The topic of the logs that go with an insight.
unfoldable pub insight_topic : Text → Text
insight_topic theme =
    if text_eq theme (lit "gc_thrashing")
    then lit "gc"
    else if text_eq theme (lit "oom_risk") || text_eq theme (lit "memory_pressure")
    then lit "memory"
    else if text_eq theme (lit "error_spike")
    then lit "error"
    else lit "performance"

pub record InsightRow : Type 0 where
  pub title : Text
  pub theme : Text
  pub link : Text
  pub variant : BadgeVariant
  pub label : Text

unfoldable pub insight_row : (Text → Text) → (Text → Text) → Text → Insight → InsightRow
unfolding insight_topic
insight_row t encode group insight = record {
  title = insight.title;
  theme = localize_insight_theme t insight.theme;
  link =
      if is_empty group
      then lit "/logs?container="
        ++ (encode insight.container ++ (lit "&topic=" ++ insight_topic insight.theme))
      else lit "/logs?group=" ++ (encode group ++ (lit "&topic=" ++ insight_topic insight.theme));
  variant = or_default (severity_variant insight.severity) outline;
  label = severity_label t insight.severity;
}

pub data NowBody : Type 0 where
  skeletons : NowBody
  sections : List DownRow → List DownRow → List ActiveAlert → List Insight → NowBody

unfoldable pub now_body : NowState → NowBody
unfolding is_failed is_stopped down_row
now_body s =
    if s.loading && length s.alerts == 0 && length s.insights == 0 && length s.fleet == 0
    then skeletons
    else sections (map down_row (filter is_failed s.fleet))
        (map down_row (filter is_stopped s.fleet)) s.alerts s.insights
