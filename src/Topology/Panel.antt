-- ===== src/Topology/Panel.antt =====
-- web/src/pages/topology.tsx: what the page shows of its state and of the query in the URL. The order of labels is
-- a parameter, as it is for `rankServices`.
pub mod Laws
pub mod Detail
pub mod Follow
mod Tests
use argus_observability.Prelude.{
  ℕ, suc, ◌+◌, ◌*◌, ◌/◌, Bool, true, false, not, ◌&&◌, Option, none, some, List, [], ◌∷◌, ◌++◌, map,
  if◌then◌else◌, any, length, ltb, is_some, or_default,
}
use argus_observability.Prelude.Text.{Text, lit, text_eq, is_empty, or_text}
use argus_observability.Prelude.Decimal.{decimal}
use argus_observability.Api.Types.{HttpServiceSummary, WorkloadSnapshot, Measure}
use argus_observability.Fleet.{BadgeVariant, destructive, secondary, outline}
use argus_observability.Topology.Status.{OpStatus, critical, warning, healthy, unknown}
use argus_observability.Topology.Build.{EdgeView, ServiceView, build_services}
use argus_observability.Topology.Rank.{
  rank_services, filter_services, pick_service, busiest_workload,
}
use argus_observability.Topology.Address.{split_addresses}
use argus_observability.Topology.Load.{PageState}

-- The values of the four query parameters.
pub record Choices : Type 0 where
  pub since : Text
  pub focus : Text
  pub query : Text
  pub show_addresses : Text

pub record Tally : Type 0 where
  pub criticals : ℕ
  pub warnings : ℕ
  pub healthies : ℕ
  pub unknowns : ℕ

-- `tally[service.status] += 1`.
unfoldable pub count_one : OpStatus → Tally → Tally
count_one critical t = record t { criticals = suc t.criticals }
count_one warning t = record t { warnings = suc t.warnings }
count_one healthy t = record t { healthies = suc t.healthies }
count_one unknown t = record t { unknowns = suc t.unknowns }

unfoldable pub count_from : Tally → List ServiceView → Tally
count_from t [] = t
count_from t (s ∷ services) = count_from (count_one s.status t) services

unfoldable pub counts : List ServiceView → Tally
unfolding count_from count_one
counts named =
    count_from (record { criticals = 0; warnings = 0; healthies = 0; unknowns = 0 }) named

unfoldable pub focus_missing : List ServiceView → Text → Bool
focus_missing [] focus = false
focus_missing (s ∷ ranked) focus =
    not (is_empty focus) && not (any (λ v. text_eq v.id focus) (s ∷ ranked))

-- `pickService(…) ?? pickService(ranked, "")`.
unfoldable pub selected_service : List ServiceView → List ServiceView → Text → Option ServiceView
selected_service ranked named focus =
    let missing = focus_missing ranked focus in
    elim (pick_service (if missing then named else ranked) (if missing then [] else focus)) [
      | none ↦ pick_service ranked []
      | some s ↦ some s
    ]

unfoldable pub status_badge : OpStatus → BadgeVariant
status_badge critical = destructive
status_badge warning = secondary
status_badge healthy = outline
status_badge unknown = outline

-- A line of the list; its button sets the focus to `id`.
pub record Row : Type 0 where
  pub id : Text
  pub label : Text
  pub status : OpStatus
  pub pressed : Bool

-- What the page shows besides its heading.
pub record Shown : Type 0 where
  pub busy : Bool
  pub stale : Bool
  pub tally : Tally
  pub named_count : ℕ
  pub missing : Option Text
  pub listed_count : ℕ
  pub address_count : ℕ
  pub rows : List Row
  pub selected : Option ServiceView

pub data Screen : Type 0 where
  skeleton load_failed no_services : Screen
  shown : Shown → Screen

unfoldable pub row_of : Option ServiceView → ServiceView → Row
row_of selected s = record {
  id = s.id;
  label = s.label;
  status = s.status;
  pressed = elim selected [ none ↦ false | some v ↦ text_eq v.id s.id ];
}

unfoldable pub shown_of : PageState → Choices → List ServiceView → Shown
shown_of page choices ranked =
    let named = (split_addresses ranked).named in
    let listed = if is_empty choices.show_addresses then named else ranked in
    let selected = selected_service ranked named choices.focus in
    record {
      busy = page.loading;
      stale = page.error;
      tally = counts named;
      named_count = length named;
      missing = if focus_missing ranked choices.focus then some choices.focus else none;
      listed_count = length listed;
      address_count = length (split_addresses ranked).addresses;
      rows = map (row_of selected) (filter_services listed choices.query);
      selected = selected;
    }

-- The nested conditional of the page over the services it has.
unfoldable pub screen_of : PageState → Choices → List ServiceView → Screen
screen_of page choices [] =
    if page.loading then skeleton else if page.error then load_failed else no_services
screen_of page choices (s ∷ ranked) = shown (shown_of page choices (s ∷ ranked))

unfoldable pub topology_page : (Text → Text → Bool) → PageState → Choices → Screen
topology_page label_le page choices = screen_of page choices (
    rank_services label_le (
      build_services page.graph (record {
        fleet = page.fleet;
        workloads = page.workloads;
        http = page.http;
        alerts = page.alerts;
      })))
