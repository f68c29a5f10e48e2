-- ===== src/Overview/Laws.antt =====
-- What the overview shows after any loads.
use argus_observability.Prelude.{
  ◌≤◌, ◌<◌, Bool, true, false, ◌&&◌, Option, none, some, List, [], ◌∷◌, filter, ◌≡◌, ◌≢◌, ◌↔◌, ◌⊎◌,
  Has, Ordered, is_some, ◌>>=◌, if◌then◌else◌,
}
use argus_observability.Prelude.Text.{Text, lit}
use argus_observability.Prelude.Sort.{sort_by}
use argus_observability.Api.Types.{ActiveAlert, SloStatus, ContainerFleetStatus, HttpServiceSummary}
use argus_observability.Fleet.{is_unstable, Reason}
use argus_observability.Fleet.Laws.{Justified}
use argus_observability.Overview.{
  Data, empty_data, OverviewState, Answers, needs_budget, has_errors, more_errors, data_of,
  overview_answered,
}

-- An element of a list that may be missing.
abbrev pub In : {A : Type 0} → A → Option (List A) → Type 0
In x none = ⊥
In x (some xs) = Has x xs

abbrev pub containers_of : Answers → Option (List ContainerFleetStatus)
containers_of a = a.fleet >>= (λ f. f.containers)

-- An objective that is breached or has less than 30 percent of its budget left.
abbrev pub IsShort : SloStatus → Type 0
IsShort s = (s.breached ≡ true) ⊎ (s.error_budget_remaining < 30000000)

-- A service that had requests, of which one percent or more failed.
abbrev pub IsFailing : HttpServiceSummary → Type 0
IsFailing s = (0 < s.requests) × (10000 ≤ s.error_rate)

-- A container that was not stopped on purpose and has a true reason to be shown.
abbrev pub NeedsCare : ContainerFleetStatus → Type 0
NeedsCare c = (c.disposition ≢ some (lit "intentional")) × ((r : Reason) × Justified c r)

-- The data shows what needs action in the answers, all of it and nothing else; the services with the highest error
-- rate come first.
pub record Shows (a : Answers) (d : Data) : Type 0 where
  pub alerts_shown : a.alerts ≡ some d.alerts
  pub slos_shown : (s : SloStatus) → Has s d.slos ↔ (In s a.slos × IsShort s)
  pub unstable_shown :
      (c : ContainerFleetStatus) → Has c d.unstable ↔ (In c (containers_of a) × NeedsCare c)
  pub http_shown : (s : HttpServiceSummary) → Has s d.http ↔ (In s a.http × IsFailing s)
  pub worst_first : Ordered (λ s r. r.error_rate ≤ s.error_rate) d.http

-- Every request of the load is answered, and the fleet has its list.
abbrev pub is_complete : Answers → Bool
is_complete a =
    is_some a.health
    && (is_some a.alerts && (is_some a.slos && (is_some (containers_of a) && is_some a.http)))

-- The last complete answers, or `old` where there are none.
abbrev pub last_complete : List Answers → Option Answers → Option Answers
last_complete [] old = old
last_complete (a ∷ answers) old = last_complete answers (if is_complete a then some a else old)

abbrev pub ShowsLast : Option Answers → Data → Type 0
ShowsLast none d = d ≡ empty_data
ShowsLast (some a) d = Shows a d

-- The data that the code makes of the four lists.
abbrev data_from :
    List ActiveAlert → List SloStatus → List ContainerFleetStatus → List HttpServiceSummary → Data
data_from alerts slos containers http = record {
  alerts = alerts;
  slos = filter needs_budget slos;
  unstable = filter is_unstable containers;
  http = sort_by more_errors (filter has_errors http);
}

-- The data of complete answers, and none of others.
abbrev Answered : Answers → Type 0
Answered a =
    ((d : Data) × (data_of a ≡ some d) × (is_complete a ≡ true) × Shows a d)
    ⊎ ((data_of a ≡ none) × (is_complete a ≡ false))

-- The state after the answers of several loads.
abbrev pub after : Text → List Answers → OverviewState → OverviewState
after message [] s = s
after message (a ∷ answers) s = after message answers (overview_answered message a s)
