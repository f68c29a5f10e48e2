-- ===== src/Problems/Slos.antt =====
-- web/src/views/slo-list.tsx: the objectives, those with the least budget first.
use argus_observability.Prelude.{
  ◌≤◌, ◌==◌, Bool, true, false, ◌&&◌, Option, none, some, List, [], map, length, if◌then◌else◌, leb,
  ltb, ◌≡◌, arith, Ordered, Ordered-imp, Has,
}
use argus_observability.Prelude.Text.{Text, lit, text_eq, is_empty}
use argus_observability.Prelude.Sort.{
  sort_by, IsPreorder, sort_by-Ordered, Has-sort_by, length-sort_by,
}
use argus_observability.Api.Types.{SloDefinition, SloStatus, Measure}
use argus_observability.Fleet.{BadgeVariant, destructive, outline}
use argus_observability.Format.{MeterTone, default, critical, budget_tone}

pub record SlosState : Type 0 where
  pub rows : List SloStatus
  pub loading : Bool
  pub error : Bool

abbrev pub slos_opened : SlosState
slos_opened = record { rows = []; loading = true; error = false }

-- `.then`, `.catch` and `.finally`.
unfoldable pub slos_answered : Option (List SloStatus) → SlosState → SlosState
slos_answered (some r) s = record { rows = r; loading = false; error = false }
slos_answered none s = record { rows = s.rows; loading = false; error = true }

unfoldable pub less_budget : SloStatus → SloStatus → Bool
less_budget a b = leb a.error_budget_remaining b.error_budget_remaining

-- `sloObjective` of web/src/lib/slo.ts: the key, the latency and the target.
unfoldable pub slo_objective : SloDefinition → Text × Option Measure × Measure
slo_objective s =
    if text_eq s.sli_metric (lit "latency_p95")
    then (lit "slo.latency", some s.latency_threshold_ms, s.target)
    else (lit "slo.availability", none, s.target)

-- A card of an objective.
pub record SloCard : Type 0 where
  pub name : Text
  pub variant : BadgeVariant
  pub badge : Text
  pub objective : Text × Option Measure × Measure
  pub compliance : Measure
  pub compliance_tone : MeterTone
  pub p95 : Option Measure
  pub budget : Measure
  pub left_tone : MeterTone
  pub links : Bool

unfoldable pub slo_card : SloStatus → SloCard
unfolding slo_objective
slo_card row = record {
  name = row.slo.name;
  variant = if row.breached then destructive else outline;
  badge = if row.breached then lit "overview.violated" else lit "sloExtra.ok";
  objective = slo_objective row.slo;
  compliance = row.compliance;
  compliance_tone = if row.breached then critical else default;
  p95 = if ltb 0 row.p95_latency_ms then some row.p95_latency_ms else none;
  budget = row.error_budget_remaining;
  left_tone = budget_tone (record { num = row.error_budget_remaining; den = 1000000 });
  links = if is_empty row.slo.service then false else true;
}

pub data SlosBody : Type 0 where
  skeleton load_error no_slos : SlosBody
  cards : List SloCard → SlosBody

unfoldable pub sorted_slos : List SloStatus → List SloStatus
unfolding less_budget
sorted_slos rows = sort_by less_budget rows

unfoldable pub slos_body : SlosState → SlosBody
unfolding slo_card sorted_slos
slos_body s =
    if s.loading && length s.rows == 0
    then skeleton
    else if s.error && length s.rows == 0
    then load_error
    else if length s.rows == 0
    then no_slos
    else cards (map slo_card (sorted_slos s.rows))

less_budget-IsPreorder : IsPreorder less_budget
unfolding less_budget
less_budget-IsPreorder = record { total = λ a b. ground arith; trans = λ a b c p q. ground arith }

less_budget-imp :
    (a b : SloStatus) → less_budget a b ≡ true → a.error_budget_remaining ≤ b.error_budget_remaining
unfolding less_budget
less_budget-imp a b h = ground arith

-- The cards stand in ascending order of the budget that remains, and none is lost.
pub sorted_slos_lem :
    (rows : List SloStatus) {row : SloStatus}
    → Has row rows
    → Ordered (λ a b. a.error_budget_remaining ≤ b.error_budget_remaining) (sorted_slos rows)
      × Has row (sorted_slos rows)
      × (length (sorted_slos rows) ≡ length rows)
unfolding sorted_slos
sorted_slos_lem rows m = (
  Ordered-imp less_budget-imp _ (sort_by-Ordered less_budget less_budget-IsPreorder rows),
  Has-sort_by less_budget m,
  length-sort_by less_budget rows,
)
