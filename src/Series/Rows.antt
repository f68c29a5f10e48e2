-- ===== src/Series/Rows.antt =====
-- What stands in a row of the stacked chart.
use argus_observability.Prelude.{
  ℕ, ◌==◌, Bool, true, false, Option, some, List, [], ◌∷◌, map, if◌then◌else◌, length, ◌≡◌, refl,
  ◌∙◌, ap₂, arith, Bool-cases, inl, inr,
}
use argus_observability.Prelude.Text.{Text, text_eq, eq_of_text_eq, has_text}
use argus_observability.Prelude.Assoc.{find_key, put, find_key-put}
use argus_observability.Api.Types.{ContainerSeries, Measure}
use argus_observability.Stats.{Fraction, sum}
use argus_observability.Series.{
  Bucket, empty_cell, number, StackRow, cell_of, bucket_at, mean, fill_row, buckets_of, row_at,
}
use argus_observability.Series.Laws.{text-IsKeyTest, cell_at, samples, cell_at-buckets_of}

-- The mean of values, 0 for none.
abbrev pub average : List Measure → Fraction
average values =
    if length values == 0
    then record { num = 0; den = 1 }
    else record { num = sum values; den = length values }

find_key-fill_row :
    (c : Text) (names : List Text) (cells : Bucket) (out : StackRow)
    → find_key text_eq c (fill_row names cells out) ≡ (
        if has_text names c then some (number (mean (cell_of c cells))) else find_key text_eq c out)
unfolding fill_row has_text
find_key-fill_row c [] cells out = refl
find_key-fill_row c (name ∷ names) cells out =
    rw
      (
        find_key-fill_row c names cells (put text_eq name (number (mean (cell_of name cells))) out),
        find_key-put text_eq text-IsKeyTest c name (number (mean (cell_of name cells))) out,
      )
      (elim (Bool-cases (text_eq name c)) [
        | inl e ↦ rw (e, eq_of_text_eq name c e) (either (has_text names c))
        | inr e ↦ rw e refl
      ])
  where
    either :
        (b : Bool)
        → (if b
            then some (number (mean (cell_of c cells)))
            else some (number (mean (cell_of c cells))))
          ≡ some (number (mean (cell_of c cells)))
    either true = refl
    either false = refl

cell_at_nil : (m : ℕ) (c : Text) → cell_at m c [] ≡ empty_cell
unfolding cell_of bucket_at find_key
cell_at_nil m c = refl

module _ (time : Text → Option ℕ) (transform : Measure → Option Measure) (clock : ℕ → Text) where
  cell_of_samples :
      (series : List ContainerSeries) (minute : ℕ) (c : Text)
      → cell_at minute c (buckets_of time transform series []) ≡ record {
        sum = sum (samples time transform minute c series);
        n = length (samples time transform minute c series);
      }
  cell_of_samples series minute c =
      cell_at-buckets_of time transform minute c series []
      ∙ rw (cell_at_nil minute c)
          (ap₂ (λ x y. record { sum = x; n = y }) (omega arith) (omega arith))

  -- In the row of a minute, the field of each container of the chart is the mean of all its samples of that minute,
  -- in whatever series and order they came, and 0 if it has none. A container named `time` takes the place of the
  -- minute's label.
  pub row_at_lem :
      (series : List ContainerSeries) (minute : ℕ) (c : Text)
      → has_text (map (λ s. s.container) series) c ≡ true
      → find_key text_eq c (row_at time transform clock series minute)
        ≡ some (number (average (samples time transform minute c series)))
  unfolding row_at mean
  row_at_lem series minute c h =
      rw (find_key-fill_row c _ (bucket_at minute (buckets_of time transform series [])) _, h)
        (rw (cell_of_samples series minute c) refl)
