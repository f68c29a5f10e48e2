-- ===== src/Charts.antt =====
-- The charts: web/src/components/metrics/multi-series-chart.tsx, time-series-chart.tsx and stacked-area-chart.tsx, with
-- chartPoints of web/src/lib/format.ts and web/src/lib/chart-colors.ts. `time` is `formatTime` of a text; values are
-- natural numbers of millionths.
pub mod Laws
mod Tests
use argus_observability.Prelude.{
  ℕ, zero, suc, ◌+◌, ◌-◌, ◌*◌, ◌/◌, ◌%◌, ◌==◌, min, max, Bool, true, false, not, ◌&&◌, Option, none,
  some, List, [], ◌∷◌, ◌++◌, map, filter, take, length, get_elem?, if◌then◌else◌, or_default, leb,
  ltb,
}
use argus_observability.Prelude.Text.{Text, lit, text_eq}
use argus_observability.Prelude.Assoc.{find_key, put}
use argus_observability.Prelude.Sort.{sort_by}
use argus_observability.Api.Types.{SeriesPoint, ContainerSeries, Measure}
use argus_observability.Stats.{Fraction, StatMode, summarize}
use argus_observability.Series.{StackRow, label, number}

abbrev pub palette : List Text
palette =
    lit "var(--chart-1)"
    ∷ lit "var(--chart-2)"
    ∷ lit "var(--chart-3)"
    ∷ lit "var(--chart-4)"
    ∷ lit "var(--chart-5)"
    ∷ lit "hsl(262 83% 58%)"
    ∷ lit "hsl(173 58% 39%)"
    ∷ lit "hsl(43 74% 49%)"
    ∷ lit "hsl(0 72% 51%)"
    ∷ lit "hsl(199 89% 48%)"
    ∷ []

-- `none` is `undefined`.
unfoldable pub container_color : ℕ → Option Text
container_color index = get_elem? palette (index % length palette)

-- `transform ? transform(v) : v`.
abbrev pub transformed : Option (Measure → Measure) → Measure → Measure
transformed none v = v
transformed (some f) v = f v

-- `chartPoints`: the index, the time and the value of each point.
unfoldable pub points_from :
    (Text → Text) → Option (Measure → Measure) → ℕ → List SeriesPoint → List (ℕ × Text × Measure)
points_from time transform i [] = []
points_from time transform i (p ∷ points) =
    (i, time p.ts, transformed transform p.value) ∷ points_from time transform (suc i) points

unfoldable pub chart_points :
    (Text → Text) → Option (Measure → Measure) → List SeriesPoint → List (ℕ × Text × Measure)
unfolding points_from
chart_points time transform points = points_from time transform 0 points

-- `mergeSeries`: one row for each time as it is written, in the order of the first points.
unfoldable pub merge_points :
    (Text → Text)
    → Option (Measure → Measure)
    → Text
    → List SeriesPoint
    → List (Text × StackRow)
    → List (Text × StackRow)
merge_points time transform container [] rows = rows
merge_points time transform container (p ∷ points) rows =
    let at = time p.ts in
    let row = or_default (find_key text_eq at rows) ((lit "time", label at) ∷ []) in
    let value = number (record { num = transformed transform p.value; den = 1 }) in
    merge_points time transform container points
      (put text_eq at (put text_eq container value row) rows)

unfoldable pub merge_series :
    (Text → Text)
    → Option (Measure → Measure)
    → List ContainerSeries
    → List (Text × StackRow)
    → List (Text × StackRow)
unfolding merge_points
merge_series time transform [] rows = rows
merge_series time transform (s ∷ series) rows =
    merge_series time transform series
      (merge_points time transform s.container (or_default s.points []) rows)

-- `describeStat`: the statistic of all values.
unfoldable pub all_values : Option (Measure → Measure) → List ContainerSeries → List Measure
all_values transform [] = []
all_values transform (s ∷ series) =
    map (λ p. transformed transform p.value) (or_default s.points []) ++ all_values transform series

unfoldable pub describe_stat :
    Option (Measure → Measure) → List ContainerSeries → StatMode → Option Fraction
unfolding all_values
describe_stat transform series mode = summarize (all_values transform series) mode

-- What a chart shows: it loads, it is empty, or it is drawn, with a label for at most eight of its series.
pub data ChartBody : Type 0 where
  chart_skeleton chart_empty : ChartBody
  drawn : ℕ → List Text → ChartBody

unfoldable pub chart_body : Bool → ℕ → List ContainerSeries → ChartBody
chart_body loading rows series =
    if loading
    then chart_skeleton
    else if rows == 0
    then chart_empty
    else drawn (length series) (take 8 (map (λ s. s.container) series))

-- `StackTooltip`: the items of a moment with their values, `none` for one that is no number.
pub record TooltipItem : Type 0 where
  pub name : Text
  pub value : Option Measure

abbrev pub item_value : TooltipItem → Measure
item_value item = or_default item.value 0

abbrev pub is_positive : TooltipItem → Bool
is_positive item = ltb 0 (item_value item)

abbrev pub higher_item : TooltipItem → TooltipItem → Bool
higher_item a b = leb (item_value b) (item_value a)

abbrev pub sum_items : List TooltipItem → Measure
sum_items [] = 0
sum_items (item ∷ items) = item_value item + sum_items items

-- The rows of the tooltip and the total, which only a percentage has.
unfoldable pub stack_tooltip :
    Bool → Bool → List TooltipItem → Option (List TooltipItem × Option Measure)
stack_tooltip active percent payload =
    let rows = sort_by higher_item (filter is_positive payload) in
    if not active
    then none
    else if length payload == 0
    then none
    else some (rows, if percent then some (sum_items rows) else none)

abbrev pub spark_points : ℕ
spark_points = 60

-- `Math.max(1, Math.ceil(points.length / SPARK_POINTS))`.
unfoldable pub spark_step : ℕ → ℕ
spark_step n = max 1 ((n + (spark_points - 1)) / spark_points)

-- The loop `for (let i = 0; i < points.length; i += step)`: `skip` points are passed over before the next one.
unfoldable pub every : ℕ → ℕ → List SeriesPoint → List Measure
every step skip [] = []
every step zero (p ∷ points) = p.value ∷ every step (step - 1) points
every step (suc skip) (p ∷ points) = every step skip points

abbrev last_value : List SeriesPoint → List Measure
last_value [] = []
last_value (p ∷ []) = p.value ∷ []
last_value (p ∷ q ∷ points) = last_value (q ∷ points)

-- The values drawn: every `step`-th, and the last one if the step passes it over.
unfoldable pub spark_values : List SeriesPoint → List Measure
unfolding every spark_step
spark_values points =
    let step = spark_step (length points) in
    every step 0 points ++ (if (length points - 1) % step == 0 then [] else last_value points)

abbrev pub least : Measure → List Measure → Measure
least m [] = m
least m (v ∷ vs) = least (min m v) vs

abbrev pub greatest : Measure → List Measure → Measure
greatest m [] = m
greatest m (v ∷ vs) = greatest (max m v) vs

-- A point of the line; `x` and `y` are fractions in the box of 100 by 48.
pub record SparkPoint : Type 0 where
  pub x : Fraction
  pub y : Fraction

unfoldable pub spark_x : ℕ → ℕ → Fraction
spark_x count i =
    if count == 1 then record { num = 50; den = 1 } else record { num = i * 100; den = count - 1 }

-- `max - min || 1`.
abbrev pub span_of : Measure → Measure → ℕ
span_of low high = if high - low == 0 then 1 else high - low

-- `46 - ((v - min) / span) * 42`.
unfoldable pub spark_y : Measure → Measure → Measure → Fraction
spark_y low high v = record { num = 46 * span_of low high - (v - low) * 42; den = span_of low high }

unfoldable pub spark_line : ℕ → Measure → Measure → ℕ → List Measure → List SparkPoint
unfolding spark_x spark_y
spark_line count low high i [] = []
spark_line count low high i (v ∷ vs) =
    record { x = spark_x count i; y = spark_y low high v } ∷ spark_line count low high (suc i) vs

-- The line of a sparkline; `none` where there are no points.
unfoldable pub sparkline : List SeriesPoint → Option (List SparkPoint)
unfolding spark_values spark_line
sparkline points = elim (spark_values points) [
  | [] ↦ none
  | ◌∷◌ v vs ↦ some (spark_line (suc (length vs)) (least v vs) (greatest v vs) 0 (v ∷ vs))
]
