-- ===== src/Series/Tests.antt =====
-- Two series of a minute, one of them twice.
use argus_observability.Prelude.{
  ℕ, ◌*◌, ◌<◌, true, Option, none, some, List, [], ◌∷◌, map, ◌≡◌, refl, Ordered, Has, ◌↔◌,
}
use argus_observability.Prelude.Text.{Text, lit, text_eq, has_text}
use argus_observability.Prelude.Assoc.{find_key, put}
use argus_observability.Prelude.Sort.{sort_by, insert_by}
use argus_observability.Api.Types.{ContainerSeries, Measure}
use argus_observability.Series.{
  label, number, row_at, merge_stacked, minutes_of, buckets_of, add_points, add_point, add_sample,
  add_value, bucket_at, cell_of, fill_row, mean,
}
use argus_observability.Series.Laws.{samples}
use argus_observability.Series.Rows.{average, row_at_lem}
use argus_observability.Series.Minutes.{has_sample, minutes_of_lem}

abbrev time : Text → Option ℕ
time ts = elim ts [ [] ↦ none | ◌∷◌ c cs ↦ some (c * 1000) ]

abbrev keep : Measure → Option Measure
keep v = some v

abbrev clock : ℕ → Text
clock minute = lit "12:00"

abbrev series : List ContainerSeries
series =
    record {
      container = lit "api";
      entity_uid = lit "docker:api";
      points = some (
          (record { ts = lit "a"; value = 4 })
          ∷ (record { ts = lit "b"; value = 8 })
          ∷ (record { ts = []; value = 100 })
          ∷ []);
    }
    ∷ record { container = lit "db"; entity_uid = lit "docker:db"; points = none }
    ∷ []

merged_run :
    merge_stacked time keep clock series
    ≡ ((lit "time", label (lit "12:00"))
        ∷ (lit "api", number (record { num = 12; den = 2 }))
        ∷ (lit "db", number (record { num = 0; den = 1 }))
        ∷ [])
      ∷ []
unfolding merge_stacked row_at minutes_of buckets_of add_points add_point add_sample add_value
    bucket_at cell_of fill_row mean find_key put text_eq lit sort_by insert_by
merged_run = refl

-- A container named `time` takes the place of the label.
time_run :
    find_key text_eq (lit "time") (
      row_at time keep clock
        (record { container = lit "time"; entity_uid = []; points = none } ∷ [])
        0)
    ≡ some (number (record { num = 0; den = 1 }))
unfolding row_at buckets_of add_points bucket_at cell_of fill_row mean find_key put text_eq lit
time_run = refl

listed : has_text (map (λ s. s.container) series) (lit "api") ≡ true
unfolding has_text text_eq lit
listed = refl

row_at_lem_example :
    find_key text_eq (lit "api") (row_at time keep clock series 60000)
    ≡ some (number (average (samples time keep 60000 (lit "api") series)))
row_at_lem_example = row_at_lem time keep clock series 60000 (lit "api") listed

minutes_of_lem_example :
    Ordered (λ a b. a < b) (minutes_of time keep series)
    × (Has 60000 (minutes_of time keep series) ↔ (has_sample time keep 60000 series ≡ true))
minutes_of_lem_example = minutes_of_lem time keep series 60000
