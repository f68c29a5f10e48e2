-- ===== src/Metrics/Container/Tests.antt =====
-- A page of two containers.
use argus_observability.Prelude.{none, some, List, [], ◌∷◌, ◌≡◌, refl, here, filter}
use argus_observability.Prelude.Text.{lit}
use argus_observability.Prelude.Sort.{sort_by, insert_by}
use argus_observability.Query.{query_value, get}
use argus_observability.Api.Types.{WorkloadSnapshot}
use argus_observability.Traces.{text_le}
use argus_observability.Stats.{avg, summarize}
use argus_observability.Metrics.Compare.{round_div}
use argus_observability.Metrics.Container.{container_names, choose_container, pick}
use argus_observability.Metrics.Container.Laws.{IsBusiest, choose_container_lem}

abbrev api : WorkloadSnapshot
api = record {
  container = lit "api";
  entity_uid = lit "docker:api";
  stack = none;
  service = none;
  labels = none;
  cpu_usage = 500000;
  memory_usage = 7;
  memory_limit = 9;
  updated_at = lit "t";
}

abbrev db : WorkloadSnapshot
db = record {
  container = lit "db";
  entity_uid = lit "docker:db";
  stack = none;
  service = none;
  labels = none;
  cpu_usage = 500000;
  memory_usage = 8;
  memory_limit = 9;
  updated_at = lit "t";
}

abbrev both : List WorkloadSnapshot
both = api ∷ db ∷ []

names_run : container_names none both ≡ lit "api" ∷ lit "db" ∷ []
unfolding container_names text_le lit sort_by insert_by filter
names_run = refl

pick_run :
    pick avg
      ((record { ts = lit "a"; value = 340000 }) ∷ (record { ts = lit "b"; value = 350000 }) ∷ [])
    ≡ 300000
unfolding pick summarize round_div
pick_run = refl

choose_container_lem_example :
    (w : WorkloadSnapshot) × IsBusiest (some (lit "api" ∷ [])) both w
    × (query_value (lit "container") [] (choose_container (some (lit "api" ∷ [])) both [])
        ≡ w.container)
unfolding query_value get
choose_container_lem_example =
    choose_container_lem (some (lit "api" ∷ [])) both [] refl refl (here refl) (here refl)
