-- ===== src/Series/Minutes.antt =====
-- The minutes of the stacked chart.
use argus_observability.Prelude.{
  ℕ, ◌<◌, ◌==◌, Bool, true, false, ◌||◌, Option, none, some, List, [], ◌∷◌, or_default, leb, ◌≡◌,
  refl, sym, ◌∙◌, arith, Bool-cases, inl, inr, Has, is_some, Ordered, Ordered-both, Ordered-imp,
  ◌↔◌,
}
use argus_observability.Prelude.Text.{Text}
use argus_observability.Prelude.Assoc.{find_key, keys, find_key-put, Ordered-put, find_key-Has}
use argus_observability.Prelude.Sort.{
  IsPreorder, sort_by-Ordered, Has-sort_by, Has-of_sort_by, sort_by_symm,
}
use argus_observability.Api.Types.{ContainerSeries, SeriesPoint, Measure}
use argus_observability.Series.{
  Bucket, add_sample, minute_of, add_point, add_points, buckets_of, minutes_of,
}
use argus_observability.Series.Laws.{minute-IsKeyTest}

-- Two minutes are different.
abbrev pub Apart : ℕ → ℕ → Type 0
Apart i j = (i == j) ≡ false

abbrev known : ℕ → List (ℕ × Bucket) → Bool
known m buckets = is_some (find_key (◌==◌) m buckets)

known-add_sample :
    (m minute : ℕ) (container : Text) (v : Measure) (buckets : List (ℕ × Bucket))
    → known m (add_sample minute container v buckets) ≡ ((minute == m) || known m buckets)
unfolding add_sample
known-add_sample m minute container v buckets =
    rw (find_key-put (◌==◌) minute-IsKeyTest m minute _ buckets)
      (elim (Bool-cases (minute == m)) [ inl e ↦ rw e refl | inr e ↦ rw e refl ])

module _ (time : Text → Option ℕ) (transform : Measure → Option Measure) where
  -- A point that has a time in the minute, and a value.
  abbrev pub falls_in : Option ℕ → Option Measure → ℕ → Bool
  falls_in none v m = false
  falls_in (some minute) none m = false
  falls_in (some minute) (some v) m = minute == m

  abbrev pub has_point : ℕ → List SeriesPoint → Bool
  has_point m [] = false
  has_point m (p ∷ points) =
      falls_in (minute_of time transform p) (transform p.value) m || has_point m points

  abbrev pub has_sample : ℕ → List ContainerSeries → Bool
  has_sample m [] = false
  has_sample m (s ∷ series) = has_point m (or_default s.points []) || has_sample m series

  known-step :
      (m : ℕ) (container : Text) (minute : Option ℕ) (value : Option Measure)
      (buckets : List (ℕ × Bucket))
      → known m (elim minute [
        | none ↦ buckets
        | some k ↦ elim value [ none ↦ buckets | some v ↦ add_sample k container v buckets ]
      ])
        ≡ (falls_in minute value m || known m buckets)
  known-step m container none value buckets = refl
  known-step m container (some k) none buckets = refl
  known-step m container (some k) (some v) buckets = known-add_sample m k container v buckets

  known-add_points :
      (m : ℕ) (container : Text) (points : List SeriesPoint) (buckets : List (ℕ × Bucket))
      → known m (add_points time transform container points buckets)
        ≡ (has_point m points || known m buckets)
  unfolding add_points add_point
  known-add_points m container [] buckets = refl
  known-add_points m container (p ∷ points) buckets =
      let one = known-step m container (minute_of time transform p) (transform p.value) buckets in
      let all =
        known-add_points m container points (add_point time transform container p buckets) in
      rw (all, one)
        (swap (has_point m points) (falls_in (minute_of time transform p) (transform p.value) m)
          (known m buckets))
    where
      swap : (a b c : Bool) → (a || (b || c)) ≡ ((b || a) || c)
      swap a b c = ground arith

  known-buckets_of :
      (m : ℕ) (series : List ContainerSeries) (buckets : List (ℕ × Bucket))
      → known m (buckets_of time transform series buckets)
        ≡ (has_sample m series || known m buckets)
  unfolding buckets_of
  known-buckets_of m [] buckets = refl
  known-buckets_of m (s ∷ series) buckets = ground (
    arith,
    known-buckets_of m series
        (add_points time transform s.container (or_default s.points []) buckets),
    known-add_points m s.container (or_default s.points []) buckets,
  )

  Apart-add_point :
      (container : Text) (minute : Option ℕ) (value : Option Measure) (buckets : List (ℕ × Bucket))
      → Ordered Apart (keys buckets)
      → Ordered Apart (
          keys (elim minute as (λ o. List (ℕ × Bucket)) [
            | none ↦ buckets
            | some k ↦ elim value [ none ↦ buckets | some v ↦ add_sample k container v buckets ]
          ]))
  unfolding add_sample
  Apart-add_point container none value buckets h = h
  Apart-add_point container (some k) none buckets h = h
  Apart-add_point container (some k) (some v) buckets h =
      Ordered-put (◌==◌) minute-IsKeyTest k _ buckets h

  Apart-add_points :
      (container : Text) (points : List SeriesPoint) (buckets : List (ℕ × Bucket))
      → Ordered Apart (keys buckets)
      → Ordered Apart (keys (add_points time transform container points buckets))
  unfolding add_points add_point
  Apart-add_points container [] buckets h = h
  Apart-add_points container (p ∷ points) buckets h =
      Apart-add_points container points (add_point time transform container p buckets)
        (Apart-add_point container (minute_of time transform p) (transform p.value) buckets h)

  Apart-buckets_of :
      (series : List ContainerSeries) (buckets : List (ℕ × Bucket))
      → Ordered Apart (keys buckets)
      → Ordered Apart (keys (buckets_of time transform series buckets))
  unfolding buckets_of
  Apart-buckets_of [] buckets h = h
  Apart-buckets_of (s ∷ series) buckets h =
      Apart-buckets_of series _ (Apart-add_points s.container (or_default s.points []) buckets h)

  leb-IsPreorder : IsPreorder leb
  leb-IsPreorder = record { total = λ a b. ground arith; trans = λ a b c p q. ground arith }

  below_of : (m n : ℕ) → (leb m n ≡ true) × Apart m n → m < n
  below_of m n h = ground arith

  found :
      (m : ℕ) (series : List ContainerSeries)
      → known m (buckets_of time transform series []) ≡ has_sample m series
  unfolding find_key
  found m series = ground (arith, known-buckets_of m series [])

  -- The rows stand in strictly ascending order of their minutes, and a minute has a row exactly if some series has a
  -- point of that minute with a value.
  pub minutes_of_lem :
      (series : List ContainerSeries) (m : ℕ)
      → Ordered (λ a b. a < b) (minutes_of time transform series)
        × (Has m (minutes_of time transform series) ↔ (has_sample m series ≡ true))
  unfolding minutes_of
  minutes_of_lem series m =
      let buckets = buckets_of time transform series [] in
      let (there_in, there_out) = find_key-Has (◌==◌) minute-IsKeyTest m buckets in
      (
        Ordered-imp below_of _ (
            Ordered-both _ _ _ (sort_by-Ordered leb leb-IsPreorder (keys buckets))
              (sort_by_symm leb Apart (λ a b e. ground arith) _ (Apart-buckets_of series [] tt))),
        (
          λ h. sym (found m series) ∙ there_in (Has-of_sort_by leb (keys buckets) h),
          λ h. Has-sort_by leb (there_out (found m series ∙ h)),
        ),
      )
