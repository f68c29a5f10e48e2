-- ===== src/Series.antt =====
-- web/src/lib/series.ts: the rows of a stacked chart, one for each minute. `time` is `new Date(ts).getTime()` from 1970 on,
-- `none` where it is not a number; `clock` is `formatTime` of the ISO text of a minute. `transform` gives `none` where
-- its result is not finite.
pub mod Laws
pub mod Rows
pub mod Minutes
mod Tests
use argus_observability.Prelude.{
  ℕ, ◌+◌, ◌*◌, ◌/◌, ◌==◌, Bool, true, false, Option, none, some, List, [], ◌∷◌, map, if◌then◌else◌,
  or_default, leb,
}
use argus_observability.Prelude.Text.{Text, lit, text_eq}
use argus_observability.Prelude.Assoc.{find_key, put, keys}
use argus_observability.Prelude.Sort.{sort_by}
use argus_observability.Api.Types.{SeriesPoint, ContainerSeries, Measure}
use argus_observability.Stats.{Fraction}

pub record Cell : Type 0 where
  pub sum : ℕ
  pub n : ℕ

abbrev pub empty_cell : Cell
empty_cell = record { sum = 0; n = 0 }

abbrev pub Bucket : Type 0
Bucket = List (Text × Cell)

-- A field of a row: a text, or a number.
pub data Field : Type 0 where
  label : Text → Field
  number : Fraction → Field

abbrev pub StackRow : Type 0
StackRow = List (Text × Field)

unfoldable pub add_value : Measure → Cell → Cell
add_value value cell = record { sum = cell.sum + value; n = cell.n + 1 }

-- The bucket of a minute, empty where there is none, and the cell of a container in it.
unfoldable pub bucket_at : ℕ → List (ℕ × Bucket) → Bucket
unfolding find_key
bucket_at minute buckets = or_default (find_key (◌==◌) minute buckets) []

unfoldable pub cell_of : Text → Bucket → Cell
unfolding find_key
cell_of container row = or_default (find_key text_eq container row) empty_cell

-- One point of a series with a time and a value.
unfoldable pub add_sample : ℕ → Text → Measure → List (ℕ × Bucket) → List (ℕ × Bucket)
unfolding add_value
add_sample minute container value buckets =
    let row = bucket_at minute buckets in
    put (◌==◌) minute (put text_eq container (add_value value (cell_of container row)) row) buckets

-- `cell && cell.n > 0 ? cell.sum / cell.n : 0`.
unfoldable pub mean : Cell → Fraction
mean cell =
    if cell.n == 0 then record { num = 0; den = 1 } else record { num = cell.sum; den = cell.n }

-- The loop that fills a row.
unfoldable pub fill_row : List Text → Bucket → StackRow → StackRow
unfolding mean
fill_row [] cells out = out
fill_row (name ∷ names) cells out =
    fill_row names cells (put text_eq name (number (mean (cell_of name cells))) out)

module _ (time : Text → Option ℕ) (transform : Measure → Option Measure) where
  abbrev pub minute_of : SeriesPoint → Option ℕ
  minute_of p = elim (time p.ts) [ none ↦ none | some ms ↦ some (ms / 60000 * 60000) ]

  unfoldable pub add_point : Text → SeriesPoint → List (ℕ × Bucket) → List (ℕ × Bucket)
  add_point container p buckets = elim (minute_of p) [
    | none ↦ buckets
    | some minute ↦ elim (transform p.value) [
      | none ↦ buckets
      | some value ↦ add_sample minute container value buckets
    ]
  ]

  unfoldable pub add_points : Text → List SeriesPoint → List (ℕ × Bucket) → List (ℕ × Bucket)
  unfolding add_point
  add_points container [] buckets = buckets
  add_points container (p ∷ points) buckets =
      add_points container points (add_point container p buckets)

  unfoldable pub buckets_of : List ContainerSeries → List (ℕ × Bucket) → List (ℕ × Bucket)
  unfolding add_points
  buckets_of [] buckets = buckets
  buckets_of (s ∷ series) buckets =
      buckets_of series (add_points s.container (or_default s.points []) buckets)

  unfoldable pub minutes_of : List ContainerSeries → List ℕ
  unfolding buckets_of
  minutes_of series = sort_by leb (keys (buckets_of series []))

  module _ (clock : ℕ → Text) where
    unfoldable pub row_at : List ContainerSeries → ℕ → StackRow
    unfolding fill_row
    row_at series minute =
        fill_row (map (λ s. s.container) series) (bucket_at minute (buckets_of series []))
          ((lit "time", label (clock minute)) ∷ [])

    unfoldable pub merge_stacked : List ContainerSeries → List StackRow
    unfolding row_at minutes_of
    merge_stacked series = map (row_at series) (minutes_of series)
