-- ===== src/Metrics.antt =====
-- web/src/pages/metrics.tsx: the page of metrics, with its mode, the workloads and the members of the group.
pub mod Compare
pub mod Container
use argus_observability.Prelude.{Bool, Option, none, some, List, [], ◌∷◌, or_default, if◌then◌else◌}
use argus_observability.Prelude.Text.{Text, lit, text_eq, is_empty, add_text}
use argus_observability.Query.{Params, patch, query_value}
use argus_observability.Api.Types.{WorkloadSnapshot, WorkloadGroupSummary}

-- `members` is `null` where no group is chosen.
pub record MetricsPage : Type 0 where
  pub workloads : List WorkloadSnapshot
  pub members : Option (List Text)

abbrev pub page_opened : MetricsPage
page_opened = record { workloads = []; members = none }

unfoldable pub workloads_answered : Option (List WorkloadSnapshot) → MetricsPage → MetricsPage
workloads_answered answer s = record s { workloads = or_default answer [] }

-- `new Set(...)` of the containers.
unfoldable pub add_members : List WorkloadSnapshot → List Text → List Text
add_members [] seen = seen
add_members (m ∷ ms) seen = add_members ms (add_text m.container seen)

-- The synchronous part of the effect on the group.
unfoldable pub group_changed : Text → MetricsPage → MetricsPage
group_changed group s = if is_empty group then record s { members = none } else s

-- An answer to the summary of a group, whichever group it belongs to.
unfoldable pub members_answered : Option WorkloadGroupSummary → MetricsPage → MetricsPage
unfolding add_members
members_answered none s = record s { members = some [] }
members_answered (some summary) s = record s { members = some (add_members summary.members []) }

unfoldable pub choose_metrics_mode : Text → Params → Params
choose_metrics_mode v url =
    patch ((lit "mode", some v) ∷ []) ((lit "mode", lit "container") ∷ []) url

-- The page shows the comparison, and otherwise one container.
unfoldable pub compares : Params → Bool
compares url = text_eq (query_value (lit "mode") (lit "container") url) (lit "compare")
