-- ===== src/Topology/Status.antt =====
-- The status of a service: `worse`, `fleetStatus`, `alertStatus` and the status loop of `buildServices`.
use argus_observability.Prelude.{
  ℕ, Bool, true, false, ◌||◌, ◌&&◌, Option, none, some, List, [], ◌∷◌, if◌then◌else◌, ltb, leb,
  ◌==◌, ◌≡◌, arith, refl, any, ap₂, ◌∙◌,
}
use argus_observability.Prelude.Text.{Text, lit, text_eq, to_lower_case}
use argus_observability.Api.Types.{ContainerFleetStatus, ActiveAlert, HttpServiceSummary}
use argus_observability.Fleet.{state_of, is_text, truthy_flag, is_unstable}

pub data OpStatus : Type 0 where
  critical warning unknown healthy : OpStatus

-- The table `rank`.
abbrev pub rank : OpStatus → ℕ
rank critical = 0
rank warning = 1
rank unknown = 2
rank healthy = 3

unfoldable pub worse : OpStatus → OpStatus → OpStatus
worse a b = if leb (rank a) (rank b) then a else b

unfoldable pub fleet_status : ContainerFleetStatus → OpStatus
fleet_status row =
    if text_eq (state_of row) (lit "dead")
      || is_text row.disposition (lit "oom")
      || is_text row.disposition (lit "unexpected")
      || truthy_flag row.oom_killed
    then critical
    else if is_unstable row
    then warning
    else if text_eq (state_of row) (lit "running")
    then healthy
    else unknown

unfoldable pub severity_of : ActiveAlert → Text
unfolding to_lower_case
severity_of alert = elim alert.severity [ none ↦ [] | some s ↦ to_lower_case s ]

unfoldable pub alert_status : ActiveAlert → OpStatus
alert_status alert =
    if text_eq (severity_of alert) (lit "critical")
    then critical
    else if text_eq (severity_of alert) (lit "warning")
    then warning
    else unknown

-- `for (const row of rows) status = worse(status, f(row))`.
unfoldable pub worsen {ℓ} : {A : Type ℓ} → (A → OpStatus) → OpStatus → List A → OpStatus
worsen f status [] = status
worsen f status (row ∷ rows) = worsen f (worse status (f row)) rows

-- `if (http && http.errors > 0) status = worse(status, "warning")`.
unfoldable pub http_errors : Option HttpServiceSummary → OpStatus → OpStatus
http_errors none status = status
http_errors (some h) status = if ltb 0 h.errors then worse status warning else status

-- `if (status === "unknown" && http && http.requests > 0 && http.errors === 0) status = "healthy"`.
unfoldable pub http_healthy : Option HttpServiceSummary → OpStatus → OpStatus
http_healthy (some h) unknown = if ltb 0 h.requests && h.errors == 0 then healthy else unknown
http_healthy http status = status

unfoldable pub service_status :
    List ContainerFleetStatus → List ActiveAlert → Option HttpServiceSummary → OpStatus
service_status fleet alerts http =
    http_healthy http
      (http_errors http (worsen alert_status (worsen fleet_status unknown fleet) alerts))

abbrev pub is_critical : OpStatus → Bool
is_critical critical = true
is_critical _ = false

abbrev pub is_warning : OpStatus → Bool
is_warning warning = true
is_warning _ = false

-- The status that is left when it is known whether anything is critical and whether anything warns.
abbrev pub grade : Bool → Bool → OpStatus
grade true w = critical
grade false true = warning
grade false false = unknown

worse-grade :
    (c w : Bool) (s : OpStatus)
    → worse (grade c w) s ≡ grade (c || is_critical s) (w || is_warning s)
unfolding worse
worse-grade true w critical = refl
worse-grade true w warning = refl
worse-grade true w unknown = refl
worse-grade true w healthy = refl
worse-grade false true critical = refl
worse-grade false true warning = refl
worse-grade false true unknown = refl
worse-grade false true healthy = refl
worse-grade false false critical = refl
worse-grade false false warning = refl
worse-grade false false unknown = refl
worse-grade false false healthy = refl

or_assoc : (a b c : Bool) → (a || b || c) ≡ (a || (b || c))
or_assoc true b c = refl
or_assoc false b c = refl

worsen-grade {ℓ} :
    {A : Type ℓ} (f : A → OpStatus) (c w : Bool) (rows : List A)
    → worsen f (grade c w) rows
      ≡ grade (c || any (λ r. is_critical (f r)) rows) (w || any (λ r. is_warning (f r)) rows)
unfolding worsen any
worsen-grade f c w [] = ground arith
worsen-grade f c w (row ∷ rows) = rw (worse-grade c w (f row)) (
    worsen-grade f (c || is_critical (f row)) (w || is_warning (f row)) rows
    ∙ ap₂ grade (or_assoc c (is_critical (f row)) (any (λ r. is_critical (f r)) rows))
        (or_assoc w (is_warning (f row)) (any (λ r. is_warning (f r)) rows)))

-- The HTTP summary reports errors; it reports requests and no error.
abbrev pub reports_errors : Option HttpServiceSummary → Bool
reports_errors none = false
reports_errors (some h) = ltb 0 h.errors

abbrev pub reports_success : Option HttpServiceSummary → Bool
reports_success none = false
reports_success (some h) = ltb 0 h.requests && h.errors == 0

with_http :
    (c w : Bool) (http : Option HttpServiceSummary)
    → http_healthy http (http_errors http (grade c w)) ≡ (
        if c
        then critical
        else if w || reports_errors http
        then warning
        else if reports_success http
        then healthy
        else unknown)
unfolding http_healthy http_errors worse
with_http c w none = ground arith
with_http c w (some h) = ground arith

-- The status of a service in closed form: critical if a container or an alert is critical; else
-- warning if a container or an alert warns or the HTTP summary has errors; else healthy if the HTTP
-- summary has requests and no errors; else unknown. So containers alone never make a service healthy.
pub service_status_lem :
    (fleet : List ContainerFleetStatus) (alerts : List ActiveAlert)
    (http : Option HttpServiceSummary)
    → service_status fleet alerts http ≡ (
        if any (λ r. is_critical (fleet_status r)) fleet
          || any (λ a. is_critical (alert_status a)) alerts
        then critical
        else if any (λ r. is_warning (fleet_status r)) fleet
            || any (λ a. is_warning (alert_status a)) alerts
            || reports_errors http
        then warning
        else if reports_success http
        then healthy
        else unknown)
unfolding service_status
service_status_lem fleet alerts http =
    rw (worsen-grade fleet_status false false fleet, worsen-grade alert_status) (with_http _ _ http)
