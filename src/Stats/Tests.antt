-- ===== src/Stats/Tests.antt =====
-- The statistics at concrete series.
use argus_observability.Prelude.{ℕ, some, List, [], ◌∷◌, ◌≡◌, refl}
use argus_observability.Prelude.Sort.{sort_by}
use argus_observability.Stats.{
  avg, p85, p90, p95, maximum, Fraction, max_from, at, interpolate, ascending, summarize,
}
use argus_observability.Stats.Laws.{AtMost, summarize-AtMost}

-- Five samples of memory in mebibytes.
abbrev samples : List ℕ
samples = 10 ∷ 50 ∷ 20 ∷ 40 ∷ []

summarize_p95_run : summarize (30 ∷ samples) p95 ≡ some (record { num = 960; den = 20 })
unfolding summarize ascending interpolate sort_by at
summarize_p95_run = refl

summarize_avg_run : summarize (30 ∷ samples) avg ≡ some (record { num = 150; den = 5 })
unfolding summarize
summarize_avg_run = refl

summarize_max_run : summarize (30 ∷ samples) maximum ≡ some (record { num = 50; den = 1 })
unfolding summarize max_from
summarize_max_run = refl

summarize-AtMost_example :
    (a : Fraction) × (b : Fraction) × (c : Fraction) × (d : Fraction) × (summarize
        (30 ∷ samples)
        p85
      ≡ some a)
    × (summarize (30 ∷ samples) p90 ≡ some b)
    × (summarize (30 ∷ samples) p95 ≡ some c)
    × (summarize (30 ∷ samples) maximum ≡ some d)
    × AtMost a b
    × AtMost b c
    × AtMost c d
summarize-AtMost_example = summarize-AtMost 30 samples
