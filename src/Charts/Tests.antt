-- ===== src/Charts/Tests.antt =====
-- A sparkline of three points and a tooltip of three items.
use argus_observability.Prelude.{
  true, Option, none, some, List, [], ◌∷◌, filter, ◌≡◌, refl, get_elem?,
}
use argus_observability.Prelude.Text.{lit}
use argus_observability.Prelude.Sort.{sort_by, insert_by}
use argus_observability.Api.Types.{SeriesPoint, Measure}
use argus_observability.Charts.{
  TooltipItem, stack_tooltip, spark_values, spark_step, every, sparkline, container_color,
}
use argus_observability.Charts.Laws.{Fits, sparkline-Fits}

abbrev point : Measure → SeriesPoint
point v = record { ts = lit "t"; value = v }

abbrev three : List SeriesPoint
three = point 5 ∷ point 9 ∷ point 1 ∷ []

values_run : spark_values three ≡ 5 ∷ 9 ∷ 1 ∷ []
unfolding spark_values every spark_step
values_run = refl

color_run : container_color 11 ≡ some (lit "var(--chart-2)")
unfolding container_color get_elem?
color_run = refl

sparkline-Fits_example : Fits (spark_values three) (sparkline three)
sparkline-Fits_example = sparkline-Fits three

abbrev item : Option Measure → TooltipItem
item v = record { name = lit "api"; value = v }

abbrev payload : List TooltipItem
payload = item (some 2) ∷ item none ∷ item (some 7) ∷ []

shown_run : stack_tooltip true true payload ≡ some (item (some 7) ∷ item (some 2) ∷ [], some 9)
unfolding stack_tooltip filter sort_by insert_by
shown_run = refl
