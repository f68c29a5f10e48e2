-- ===== src/Fleet/Laws.antt =====
-- When a container is unstable, and that the reason shown is a true one.
use argus_observability.Prelude.{true, Option, none, some, ◌≡◌, ◌≢◌, ◌<◌, ◌↔◌, ◌⊎◌, arith}
use argus_observability.Prelude.Text.{Text, lit, text_eq_iff}
use argus_observability.Api.Types.{ContainerFleetStatus}
use argus_observability.Fleet.{
  is_text, state_of, is_unstable, Reason, oom, unexpected, dead, restarting, unhealthy, restarts,
  instability_reason,
}

pub is_text_iff : (o : Option Text) (s : Text) → (is_text o s ≡ true) ↔ (o ≡ some s)
unfolding is_text
is_text_iff none s = (λ h. cc, λ h. cc)
is_text_iff (some r) s = ground (arith, text_eq_iff r s)

-- What each reason claims of a container.
abbrev pub Justified : ContainerFleetStatus → Reason → Type 0
Justified c oom = (c.disposition ≡ some (lit "oom")) ⊎ (c.oom_killed ≡ some true)
Justified c unexpected = c.disposition ≡ some (lit "unexpected")
Justified c dead = state_of c ≡ lit "dead"
Justified c restarting = state_of c ≡ lit "restarting"
Justified c unhealthy = c.health ≡ some (lit "unhealthy")
Justified c (restarts n) = (c.restart_count ≡ n) × (3 < n)

-- The reason shown for an unstable container holds of it.
pub instability_reason-Justified :
    (c : ContainerFleetStatus) → is_unstable c ≡ true → Justified c (instability_reason c)
unfolding is_unstable instability_reason
instability_reason-Justified c h = ground (
  arith,
  is_text_iff c.disposition (lit "intentional"),
  is_text_iff c.disposition (lit "oom"),
  is_text_iff c.disposition (lit "unexpected"),
  is_text_iff c.health (lit "unhealthy"),
  text_eq_iff (state_of c) (lit "dead"),
  text_eq_iff (state_of c) (lit "restarting"),
)

not_intentional :
    (c : ContainerFleetStatus) → is_unstable c ≡ true → c.disposition ≢ some (lit "intentional")
unfolding is_unstable
not_intentional c h =
    λ e. let i = (is_text_iff c.disposition (lit "intentional")).1 e in ground arith

pub unstable_of :
    (c : ContainerFleetStatus) (r : Reason)
    → c.disposition ≢ some (lit "intentional")
    → Justified c r
    → is_unstable c ≡ true
unfolding is_unstable
unstable_of c oom n j =
    ground
      (arith, is_text_iff c.disposition (lit "intentional"), is_text_iff c.disposition (lit "oom"))
unstable_of c unexpected n j = ground (
  arith,
  is_text_iff c.disposition (lit "intentional"),
  is_text_iff c.disposition (lit "unexpected"),
)
unstable_of c dead n j =
    ground
      (arith, is_text_iff c.disposition (lit "intentional"), text_eq_iff (state_of c) (lit "dead"))
unstable_of c restarting n j = ground (
  arith,
  is_text_iff c.disposition (lit "intentional"),
  text_eq_iff (state_of c) (lit "restarting"),
)
unstable_of c unhealthy n j =
    ground
      (arith, is_text_iff c.disposition (lit "intentional"), is_text_iff c.health (lit "unhealthy"))
unstable_of c (restarts k) n j = ground (arith, is_text_iff c.disposition (lit "intentional"))

-- `isUnstable` and `instabilityReason` agree: a container is unstable exactly if it was not stopped on purpose and
-- the reason that would be shown for it is true of it, where the count of restarts, the reason that is left when no
-- other applies, is true of it if it is more than three.
pub is_unstable-instability_reason :
    (c : ContainerFleetStatus)
    → (is_unstable c ≡ true)
      ↔ ((c.disposition ≢ some (lit "intentional")) × Justified c (instability_reason c))
is_unstable-instability_reason c = (
  λ h. (not_intentional c h, instability_reason-Justified c h),
  λ (n, j). unstable_of c (instability_reason c) n j,
)
