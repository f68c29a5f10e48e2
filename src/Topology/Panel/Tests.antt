-- ===== src/Topology/Panel/Tests.antt =====
-- The page of two services, one of them named by an address.
use argus_observability.Prelude.{false, none, some, List, [], ◌∷◌, ◌≡◌, refl, any, Has, ◌⊎◌}
use argus_observability.Prelude.Text.{Text, lit, text_eq}
use argus_observability.Topology.Status.{OpStatus, critical, healthy}
use argus_observability.Topology.Build.{ServiceView}
use argus_observability.Topology.Load.{initial}
use argus_observability.Topology.Panel.{Choices, counts, count_from, count_one, shown_of}
use argus_observability.Topology.Panel.Laws.{selected_service_lem}

abbrev service : Text → OpStatus → ServiceView
service id status = record {
  id = id;
  label = id;
  status = status;
  upstream = [];
  downstream = [];
  fleet = [];
  workloads = [];
  http = none;
  alerts = [];
}

abbrev ranked : List ServiceView
ranked = service (lit "payments") critical ∷ service (lit "10.0.0.7") healthy ∷ []

abbrev choices : Choices
choices = record { since = lit "24h"; focus = lit "payments"; query = []; show_addresses = [] }

counts_run : (counts ranked).criticals ≡ 1
unfolding counts count_from count_one
counts_run = refl

selected_service_lem_example :
    (s : ServiceView) × ((shown_of initial choices ranked).selected ≡ some s)
    × Has s ranked
    × ((s.id ≡ lit "payments") ⊎ (any (λ v. text_eq v.id (lit "payments")) ranked ≡ false))
selected_service_lem_example = selected_service_lem initial choices ranked (λ e. cc)
