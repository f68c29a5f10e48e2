-- ===== src/Fleet/Tests.antt =====
-- Runs of container-state.ts, and the theorems at a container.
use argus_observability.Prelude.{true, none, some, ◌≡◌, ◌≢◌, refl, ◌↔◌}
use argus_observability.Prelude.Text.{lit, text_eq}
use argus_observability.Api.Types.{ContainerFleetStatus}
use argus_observability.Fleet.{is_text, is_unstable, dead, instability_reason, state_of}
use argus_observability.Fleet.Laws.{Justified, is_unstable-instability_reason}

abbrev pub payments : ContainerFleetStatus
payments = record {
  container = lit "shop-payments-1";
  entity_uid = lit "c1";
  service = some (lit "payments");
  state = some (lit "DEAD");
  health = none;
  restart_count = 0;
  exit_code = none;
  oom_killed = none;
  status_text = none;
  disposition = none;
  updated_at = none;
}

payments_runs : (is_unstable payments ≡ true) × (instability_reason payments ≡ dead)
unfolding is_unstable instability_reason is_text state_of text_eq lit
payments_runs = (refl, refl)

is_unstable-instability_reason_example : (is_unstable payments ≡ true) ↔ (
    (payments.disposition ≢ some (lit "intentional"))
    × Justified payments (instability_reason payments))
is_unstable-instability_reason_example = is_unstable-instability_reason payments
