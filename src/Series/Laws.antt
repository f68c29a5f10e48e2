-- ===== src/Series/Laws.antt =====
-- The rows against the samples of each minute.
use argus_observability.Prelude.{
  ℕ, ◌+◌, ◌==◌, Bool, true, false, ◌&&◌, Option, none, some, List, [], ◌∷◌, ◌++◌, if◌then◌else◌,
  or_default, length, length-append, ◌≡◌, refl, sym, ap, ap₂, ◌∙◌, arith, Bool-cases, inl, inr,
}
use argus_observability.Prelude.Text.{Text, text_eq, text_eq_refl, eq_of_text_eq}
use argus_observability.Prelude.Assoc.{put, IsKeyTest, find_key-put}
use argus_observability.Api.Types.{SeriesPoint, ContainerSeries, Measure}
use argus_observability.Stats.{sum}
use argus_observability.Series.{
  Cell, Bucket, add_value, bucket_at, cell_of, add_sample, minute_of, add_point, add_points,
  buckets_of,
}

pub text-IsKeyTest : IsKeyTest text_eq
text-IsKeyTest = record { test_refl = text_eq_refl; test_eq = eq_of_text_eq }

pub minute-IsKeyTest : IsKeyTest (◌==◌)
minute-IsKeyTest = record { test_refl = λ k. ground arith; test_eq = λ j k h. ground arith }

cell_of-put :
    (c container : Text) (cell : Cell) (row : Bucket)
    → cell_of c (put text_eq container cell row)
      ≡ (if text_eq container c then cell else cell_of c row)
unfolding cell_of
cell_of-put c container cell row =
    rw (find_key-put text_eq text-IsKeyTest c container cell row)
      (elim (Bool-cases (text_eq container c)) [ inl e ↦ rw e refl | inr e ↦ rw e refl ])

bucket_at-put :
    (m minute : ℕ) (row : Bucket) (buckets : List (ℕ × Bucket))
    → bucket_at m (put (◌==◌) minute row buckets)
      ≡ (if minute == m then row else bucket_at m buckets)
unfolding bucket_at
bucket_at-put m minute row buckets =
    rw (find_key-put (◌==◌) minute-IsKeyTest m minute row buckets)
      (elim (Bool-cases (minute == m)) [ inl e ↦ rw e refl | inr e ↦ rw e refl ])

-- The cell of a minute and a container.
abbrev pub cell_at : ℕ → Text → List (ℕ × Bucket) → Cell
cell_at m c buckets = cell_of c (bucket_at m buckets)

cell_at-add_sample :
    (m minute : ℕ) (c container : Text) (value : Measure) (buckets : List (ℕ × Bucket))
    → cell_at m c (add_sample minute container value buckets) ≡ (
        if minute == m && text_eq container c
        then add_value value (cell_at m c buckets)
        else cell_at m c buckets)
unfolding add_sample
cell_at-add_sample m minute c container value buckets =
    rw (bucket_at-put m minute (put text_eq container cell row) buckets)
      (elim (Bool-cases (minute == m)) [
        | inl e ↦ rw (e, cell_of-put c container cell row) (same_minute (ground arith))
        | inr e ↦ rw e refl
      ])
  where
    row : Bucket
    row = bucket_at minute buckets

    cell : Cell
    cell = add_value value (cell_of container row)

    same_minute :
        minute ≡ m
        → (if text_eq container c then cell else cell_of c row) ≡ (
            if text_eq container c
            then add_value value (cell_at m c buckets)
            else cell_at m c buckets)
    same_minute f = elim (Bool-cases (text_eq container c)) [
      | inl g ↦
          rw g (ap₂ (λ k d. add_value value (cell_at k d buckets)) f (eq_of_text_eq container c g))
      | inr g ↦ rw g (ap (λ k. cell_at k c buckets) f)
    ]

module _ (time : Text → Option ℕ) (transform : Measure → Option Measure) where
  -- The values of the points of a minute.
  abbrev pub value_of : Option ℕ → Option Measure → ℕ → List Measure
  value_of none v m = []
  value_of (some minute) none m = []
  value_of (some minute) (some v) m = if minute == m then v ∷ [] else []

  abbrev pub samples_in : ℕ → List SeriesPoint → List Measure
  samples_in m [] = []
  samples_in m (p ∷ points) =
      value_of (minute_of time transform p) (transform p.value) m ++ samples_in m points

  -- The values of all points of a minute in the series of a container.
  abbrev pub samples : ℕ → Text → List ContainerSeries → List Measure
  samples m c [] = []
  samples m c (s ∷ series) =
      (if text_eq s.container c then samples_in m (or_default s.points []) else [])
      ++ samples m c series

  -- A cell to which values are added.
  abbrev pub grown : Cell → List Measure → Cell
  grown cell values = record { sum = cell.sum + sum values; n = cell.n + length values }

  sum-append : (xs ys : List ℕ) → sum (xs ++ ys) ≡ sum xs + sum ys
  sum-append [] ys = omega arith
  sum-append (x ∷ xs) ys = omega (arith, sum-append xs ys)

  cell_eq :
      (a b c d : ℕ)
      → a ≡ b
      → c ≡ d
      → Path Cell (record { sum = a; n = c }) (record { sum = b; n = d })
  cell_eq a b c d e f = ap₂ (λ x y. record { sum = x; n = y }) e f

  grown-append :
      (cell : Cell) (xs ys : List Measure) → grown (grown cell xs) ys ≡ grown cell (xs ++ ys)
  grown-append cell xs ys =
      cell_eq _ _ _ _ (omega (arith, sum-append xs ys)) (omega (arith, length-append xs ys))

  grown_nil : (cell : Cell) → grown cell [] ≡ cell
  grown_nil cell = cell_eq _ _ _ _ (omega arith) (omega arith)

  unchanged : (cell : Cell) (b : Bool) → cell ≡ grown cell (if b then [] else [])
  unchanged cell true = sym (grown_nil cell)
  unchanged cell false = sym (grown_nil cell)

  -- One value more, if the minute and the container are those of the cell.
  one_more :
      (cell : Cell) (value : Measure) (a b : Bool)
      → (if a && b then add_value value cell else cell)
        ≡ grown cell (if b then (if a then value ∷ [] else []) else [])
  unfolding add_value
  one_more cell value true true = cell_eq _ _ _ _ (omega arith) (omega arith)
  one_more cell value true false = sym (grown_nil cell)
  one_more cell value false b = unchanged cell b

  cell_at-step :
      (m : ℕ) (c container : Text) (minute : Option ℕ) (value : Option Measure)
      (buckets : List (ℕ × Bucket))
      → cell_at m c (elim minute [
        | none ↦ buckets
        | some k ↦ elim value [ none ↦ buckets | some v ↦ add_sample k container v buckets ]
      ])
        ≡ grown (cell_at m c buckets) (if text_eq container c then value_of minute value m else [])
  cell_at-step m c container none value buckets = unchanged _ (text_eq container c)
  cell_at-step m c container (some k) none buckets = unchanged _ (text_eq container c)
  cell_at-step m c container (some k) (some v) buckets =
      cell_at-add_sample m k c container v buckets
      ∙ one_more (cell_at m c buckets) v (k == m) (text_eq container c)

  cell_at-add_point :
      (m : ℕ) (c container : Text) (p : SeriesPoint) (buckets : List (ℕ × Bucket))
      → cell_at m c (add_point time transform container p buckets)
        ≡ grown (cell_at m c buckets) (
            if text_eq container c
            then value_of (minute_of time transform p) (transform p.value) m
            else [])
  unfolding add_point
  cell_at-add_point m c container p buckets =
      cell_at-step m c container (minute_of time transform p) (transform p.value) buckets

  if-append :
      (b : Bool) (xs ys : List Measure)
      → (if b then xs else []) ++ (if b then ys else []) ≡ (if b then xs ++ ys else [])
  if-append true xs ys = refl
  if-append false xs ys = refl

  cell_at-add_points :
      (m : ℕ) (c container : Text) (points : List SeriesPoint) (buckets : List (ℕ × Bucket))
      → cell_at m c (add_points time transform container points buckets)
        ≡ grown (cell_at m c buckets) (if text_eq container c then samples_in m points else [])
  unfolding add_points
  cell_at-add_points m c container [] buckets = unchanged _ (text_eq container c)
  cell_at-add_points m c container (p ∷ points) buckets =
      cell_at-add_points m c container points (add_point time transform container p buckets)
      ∙ (ap (λ cell. grown cell (if text_eq container c then samples_in m points else []))
            (cell_at-add_point m c container p buckets)
          ∙ (grown-append (cell_at m c buckets) _ _
              ∙ ap (grown (cell_at m c buckets)) (if-append (text_eq container c) _ _)))

  pub cell_at-buckets_of :
      (m : ℕ) (c : Text) (series : List ContainerSeries) (buckets : List (ℕ × Bucket))
      → cell_at m c (buckets_of time transform series buckets)
        ≡ grown (cell_at m c buckets) (samples m c series)
  unfolding buckets_of
  cell_at-buckets_of m c [] buckets = sym (grown_nil _)
  cell_at-buckets_of m c (s ∷ series) buckets =
      cell_at-buckets_of m c series
        (add_points time transform s.container (or_default s.points []) buckets)
      ∙ (ap (λ cell. grown cell (samples m c series))
            (cell_at-add_points m c s.container (or_default s.points []) buckets)
          ∙ grown-append (cell_at m c buckets) _ _)
