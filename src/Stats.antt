-- ===== src/Stats.antt =====
-- web/src/lib/stats.ts: the statistics of a series. A value is a natural number of millionths; a result is
-- an exact fraction. The rounding of floating point is not modelled.
pub mod Laws
pub mod Monotone
mod Tests
use argus_observability.Prelude.{
  ℕ, zero, suc, ◌+◌, ◌-◌, ◌*◌, ◌/◌, ◌%◌, Bool, true, false, Option, none, some, List, [], ◌∷◌,
  if◌then◌else◌, leb, ltb, length,
}
use argus_observability.Prelude.Text.{Text, lit, text_eq}
use argus_observability.Prelude.Sort.{sort_by}

pub data StatMode : Type 0 where
  avg p85 p90 p95 maximum : StatMode

unfoldable pub parse_stat_mode : Text → StatMode
unfolding text_eq lit
parse_stat_mode value =
    if text_eq value (lit "p85")
    then p85
    else if text_eq value (lit "p90")
    then p90
    else if text_eq value (lit "p95")
    then p95
    else if text_eq value (lit "max")
    then maximum
    else avg

-- The table `PERCENTILE`, in twentieths: 0.85, 0.9 and 0.95.
abbrev pub percentile : StatMode → Option ℕ
percentile p85 = some 17
percentile p90 = some 18
percentile p95 = some 19
percentile _ = none

-- `num / den`.
pub record Fraction : Type 0 where
  pub num : ℕ
  pub den : ℕ

abbrev pub sum : List ℕ → ℕ
sum [] = 0
sum (v ∷ vs) = v + sum vs

-- `values.reduce((a, b) => (b > a ? b : a), values[0])`.
unfoldable pub max_from : ℕ → List ℕ → ℕ
max_from a [] = a
max_from a (b ∷ vs) = max_from (if ltb a b then b else a) vs

-- `xs[i]`, read only inside the list.
unfoldable pub at : List ℕ → ℕ → ℕ
at [] i = 0
at (x ∷ xs) zero = x
at (x ∷ xs) (suc i) = at xs i

-- `rank = q * (sorted.length - 1)` with `q` in twentieths: its floor, its ceiling, and the interpolation.
unfoldable pub interpolate : ℕ → List ℕ → Fraction
interpolate q sorted =
    let scaled = q * (length sorted - 1) in
    let low = scaled / 20 in
    let high = (scaled + 19) / 20 in
    let below = at sorted low in
    record { num = below * 20 + (at sorted high - below) * (scaled % 20); den = 20 }

-- The values in ascending order.
unfoldable pub ascending : List ℕ → List ℕ
ascending values = sort_by leb values

unfoldable pub summarize : List ℕ → StatMode → Option Fraction
unfolding max_from
summarize [] mode = none
summarize (v ∷ vs) maximum = some (record { num = max_from v (v ∷ vs); den = 1 })
summarize (v ∷ vs) mode = elim (percentile mode) [
  | none ↦ some (record { num = sum (v ∷ vs); den = length (v ∷ vs) })
  | some q ↦ some (interpolate q (ascending (v ∷ vs)))
]

unfoldable pub stat_key : StatMode → Text
unfolding lit
stat_key avg = lit "chart.stats.avg"
stat_key p85 = lit "chart.stats.p85"
stat_key p90 = lit "chart.stats.p90"
stat_key p95 = lit "chart.stats.p95"
stat_key maximum = lit "chart.stats.max"
