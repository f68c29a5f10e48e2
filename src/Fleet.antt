-- ===== src/Fleet.antt =====
-- web/src/lib/container-state.ts: the state of one container, and web/src/lib/severity.ts, the label and
-- badge of a severity. `t`, the translation function of i18next, is a parameter.
pub mod Laws
pub mod Tests
use argus_observability.Prelude.{
  ℕ, Bool, true, false, ◌||◌, Option, none, some, List, [], ◌∷◌, ◌++◌, if◌then◌else◌, or_default,
  ltb,
}
use argus_observability.Prelude.Text.{Text, lit, text_eq, to_lower_case}
use argus_observability.Api.Types.{ContainerFleetStatus}

pub data BadgeVariant : Type 0 where
  plain secondary destructive outline : BadgeVariant

-- `variants[state] ?? "outline"`.
unfoldable pub state_variant : Text → BadgeVariant
unfolding text_eq lit
state_variant state =
    if text_eq state (lit "running")
    then plain
    else if text_eq state (lit "restarting")
    then secondary
    else if text_eq state (lit "exited")
    then outline
    else if text_eq state (lit "dead")
    then destructive
    else outline

-- A translation that answers the key itself is missing.
unfoldable pub translated_or : (Text → Text) → Text → Text → Text
unfolding text_eq
translated_or t key fallback = let label = t key in if text_eq label key then fallback else label

unfoldable pub state_label : (Text → Text) → Text → Text
unfolding translated_or lit
state_label t state = translated_or t (lit "state." ++ state) state

-- `status.state?.toLowerCase() ?? ""`.
unfoldable pub state_of : ContainerFleetStatus → Text
unfolding to_lower_case
state_of status = elim status.state [ none ↦ [] | some s ↦ to_lower_case s ]

-- `field === "literal"` of an optional field.
unfoldable pub is_text : Option Text → Text → Bool
unfolding text_eq
is_text none s = false
is_text (some r) s = text_eq r s

abbrev pub truthy_flag : Option Bool → Bool
truthy_flag none = false
truthy_flag (some b) = b

unfoldable pub is_unstable : ContainerFleetStatus → Bool
is_unstable status =
    if is_text status.disposition (lit "intentional")
    then false
    else text_eq (state_of status) (lit "restarting")
      || text_eq (state_of status) (lit "dead")
      || is_text status.disposition (lit "unexpected")
      || is_text status.disposition (lit "oom")
      || is_text status.health (lit "unhealthy")
      || truthy_flag status.oom_killed
      || ltb 3 status.restart_count

-- The texts that `instabilityReason` asks for; `restarts` carries its count.
pub data Reason : Type 0 where
  oom unexpected dead restarting unhealthy : Reason
  restarts : ℕ → Reason

unfoldable pub instability_reason : ContainerFleetStatus → Reason
instability_reason status =
    if is_text status.disposition (lit "oom") || truthy_flag status.oom_killed
    then oom
    else if is_text status.disposition (lit "unexpected")
    then unexpected
    else if text_eq (state_of status) (lit "dead")
    then dead
    else if text_eq (state_of status) (lit "restarting")
    then restarting
    else if is_text status.health (lit "unhealthy")
    then unhealthy
    else restarts status.restart_count

-- severity.ts.
unfoldable pub severity_variant : Text → Option BadgeVariant
unfolding text_eq lit
severity_variant severity =
    if text_eq severity (lit "critical")
    then some destructive
    else if text_eq severity (lit "warning")
    then some secondary
    else if text_eq severity (lit "info") || text_eq severity (lit "debug")
    then some outline
    else none

unfoldable pub severity_label : (Text → Text) → Text → Text
unfolding text_eq lit
severity_label t severity =
    if text_eq severity (lit "critical")
    then t (lit "severity.critical")
    else if text_eq severity (lit "warning")
    then t (lit "severity.warning")
    else if text_eq severity (lit "info")
    then t (lit "severity.info")
    else if text_eq severity (lit "debug")
    then t (lit "severity.debug")
    else severity
