-- ===== src/Charts/Laws.antt =====
-- The line of a sparkline in its box, and the total of a tooltip.
use argus_observability.Prelude.{
  ℕ, suc, ◌+◌, ◌*◌, ◌≤◌, ◌<◌, ◌==◌, min, max, true, Option, none, some, List, [], ◌∷◌, filter,
  length, ◌≡◌, refl, sym, ap, subst, ◌∙◌, arith, All, All-both, Ordered, Ordered-imp, Bool-cases,
  inl, inr,
}
use argus_observability.Prelude.Sort.{sort_by, insert_by, IsPreorder, sort_by-Ordered}
use argus_observability.Api.Types.{SeriesPoint, Measure}
use argus_observability.Charts.{
  TooltipItem, item_value, is_positive, higher_item, sum_items, stack_tooltip, spark_values, least,
  greatest, SparkPoint, spark_x, spark_y, spark_line, sparkline,
}

least_le : (m : Measure) (vs : List Measure) → (least m vs ≤ m) × All (λ v. least m vs ≤ v) vs
least_le m [] = (omega arith, tt)
least_le m (v ∷ vs) = let (a, h) = least_le (min m v) vs in (omega arith, (omega arith, h))

greatest_le :
    (m : Measure) (vs : List Measure) → (m ≤ greatest m vs) × All (λ v. v ≤ greatest m vs) vs
greatest_le m [] = (omega arith, tt)
greatest_le m (v ∷ vs) = let (a, h) = greatest_le (max m v) vs in (omega arith, (omega arith, h))

-- A point in the box: from 0 to 100 across, and from 4 to 46 down.
pub record InBox (p : SparkPoint) : Type 0 where
  pub across : p.x.num ≤ 100 * p.x.den
  pub above : 4 * p.y.den ≤ p.y.num
  pub below : p.y.num ≤ 46 * p.y.den
  pub drawn : (0 < p.x.den) × (0 < p.y.den)

spark_x-den :
    (count i : ℕ)
    → i < count
    → (0 < (spark_x count i).den) × ((spark_x count i).num ≤ 100 * (spark_x count i).den)
unfolding spark_x
spark_x-den count i h = (ground arith, ground arith)

spark_y-den :
    (low high v : Measure)
    → low ≤ v
    → v ≤ high
    → (0 < (spark_y low high v).den)
      × (4 * (spark_y low high v).den ≤ (spark_y low high v).num)
      × ((spark_y low high v).num ≤ 46 * (spark_y low high v).den)
unfolding spark_y
spark_y-den low high v h k = (ground arith, ground arith, ground arith)

spark_line-InBox :
    (count : ℕ) (low high : Measure) (i : ℕ) (vs : List Measure)
    → i + length vs ≤ count
    → All (λ v. (low ≤ v) × (v ≤ high)) vs
    → All InBox (spark_line count low high i vs)
unfolding spark_line
spark_line-InBox count low high i [] h a = tt
spark_line-InBox count low high i (v ∷ vs) h ((l, u), a) =
    let (dx, x) = spark_x-den count i (omega arith) in
    let (dy, y, z) = spark_y-den low high v l u in
    (
      record { across = x; above = y; below = z; drawn = (dx, dy) },
      spark_line-InBox count low high (suc i) vs (omega arith) a,
    )

length-spark_line :
    (count : ℕ) (low high : Measure) (i : ℕ) (vs : List Measure)
    → length (spark_line count low high i vs) ≡ length vs
unfolding spark_line
length-spark_line count low high i [] = refl
length-spark_line count low high i (v ∷ vs) =
    omega (arith, length-spark_line count low high (suc i) vs)

-- A line with its points in the box, one for each value.
abbrev pub Fits : List Measure → Option (List SparkPoint) → Type 0
Fits values none = values ≡ []
Fits values (some line) = All InBox line × (length line ≡ length values)

Fits-values :
    (values : List Measure)
    → Fits values (elim values as (λ x. Option (List SparkPoint)) [
      | [] ↦ none
      | ◌∷◌ v vs ↦ some (spark_line (suc (length vs)) (least v vs) (greatest v vs) 0 (v ∷ vs))
    ])
Fits-values [] = refl
Fits-values (v ∷ vs) =
    let (a, h) = least_le v vs in
    let (b, k) = greatest_le v vs in
    (
      spark_line-InBox _ _ _ 0 (v ∷ vs) (omega arith) ((a, b), All-both _ _ vs h k),
      length-spark_line _ _ _ 0 (v ∷ vs),
    )

-- The line of a sparkline has a point for each of its values, all in the box that it is drawn in, whatever the values; it
-- is missing only without values.
pub sparkline-Fits : (points : List SeriesPoint) → Fits (spark_values points) (sparkline points)
unfolding sparkline
sparkline-Fits points = Fits-values (spark_values points)

sum_items-insert_by :
    (x : TooltipItem) (items : List TooltipItem)
    → sum_items (insert_by higher_item x items) ≡ item_value x + sum_items items
unfolding insert_by
sum_items-insert_by x [] = refl
sum_items-insert_by x (y ∷ items) = ground (arith, sum_items-insert_by x items)

sum_items-sort_by :
    (items : List TooltipItem) → sum_items (sort_by higher_item items) ≡ sum_items items
unfolding sort_by
sum_items-sort_by [] = refl
sum_items-sort_by (x ∷ items) =
    omega (arith, sum_items-insert_by x (sort_by higher_item items), sum_items-sort_by items)

sum_items-filter :
    (items : List TooltipItem) → sum_items (filter is_positive items) ≡ sum_items items
unfolding filter
sum_items-filter [] = refl
sum_items-filter (x ∷ items) = ground (arith, sum_items-filter items)

higher_item-IsPreorder : IsPreorder higher_item
higher_item-IsPreorder = record { total = λ a b. ground arith; trans = λ a b c p q. ground arith }

-- A tooltip that is shown lists its items from the highest value to the lowest, and the total of a percentage is the
-- sum of all items of the moment, those that are not listed included.
pub stack_tooltip_lem :
    (payload rows : List TooltipItem) (total : Option Measure)
    → stack_tooltip true true payload ≡ some (rows, total)
    → Ordered (λ a b. item_value b ≤ item_value a) rows × (total ≡ some (sum_items payload))
unfolding stack_tooltip
stack_tooltip_lem payload rows total h =
    let sorted = sort_by higher_item (filter is_positive payload) in
    let all : sum_items sorted ≡ sum_items payload =
      sum_items-sort_by (filter is_positive payload) ∙ sum_items-filter payload in
    let order : Ordered (λ a b. item_value b ≤ item_value a) sorted =
      Ordered-imp (λ a b k. ground arith) _
        (sort_by-Ordered higher_item higher_item-IsPreorder (filter is_positive payload)) in
    elim (Bool-cases (length payload == 0)) [
      | inl e ↦ let n = rw e at h in absurd cc
      | inr e ↦
          let same : some (sorted, some (sum_items sorted)) ≡ some (rows, total) = rw e at h in
          let r : sorted ≡ rows = cc in
          let t : some (sum_items sorted) ≡ total = cc in
          (subst (λ l. Ordered (λ a b. item_value b ≤ item_value a) l) r order, sym t ∙ ap some all)
    ]
