-- ===== src/Traces/Laws.antt =====
-- The choice of services, the start of a trace, and its bars.
use argus_observability.Prelude.{
  ℕ, ◌+◌, ◌*◌, ◌≤◌, not, ◌&&◌, ◌||◌, List, [], ◌∷◌, min, ◌≡◌, inl, inr, ap, arith, All, Bool-cases,
}
use argus_observability.Prelude.Text.{Text, text_eq, is_empty, has_text, text_eq_iff}
use argus_observability.Api.Types.{TraceSpan}
use argus_observability.Traces.{service_options, earliest, origin_of, bar_of}

-- The list of services offers exactly the known ones and the one that is chosen.
pub has_text-service_options :
    (service x : Text) (services : List Text)
    → has_text (service_options service services) x
      ≡ (has_text services x || (not (is_empty service) && text_eq service x))
unfolding service_options has_text
has_text-service_options service x services = elim (Bool-cases (text_eq service x)) [
  | inl t ↦
      let same = ap (has_text services) ((text_eq_iff service x).0 t) in
      rw t (ground (arith, same, t))
  | inr t ↦ rw t (ground (arith, t))
]

module _ (time : Text → ℕ) where
  earliest_lem :
      (least : ℕ) (spans : List TraceSpan)
      → (earliest time least spans ≤ least)
        × All (λ sp. earliest time least spans ≤ time sp.start_ts) spans
  unfolding earliest
  earliest_lem least [] = (omega arith, tt)
  earliest_lem least (sp ∷ spans) =
      let (p, h) = earliest_lem (min least (time sp.start_ts)) spans in
      (omega (arith, p), (omega (arith, p), h))

  -- No span starts before the origin of its trace.
  pub origin_of-All :
      (spans : List TraceSpan) → All (λ sp. origin_of time spans ≤ time sp.start_ts) spans
  unfolding origin_of
  origin_of-All [] = tt
  origin_of-All (sp ∷ spans) = earliest_lem (time sp.start_ts) spans

-- A span that ends inside its trace has a bar that ends inside the whole width and is at least as wide as the span's
-- share of it.
pub bar_of_lem :
    (total start duration : ℕ)
    → start + duration ≤ total
    → ((bar_of total start duration).left + (bar_of total start duration).width ≤ 200 * total)
      × (duration * 200 ≤ (bar_of total start duration).width)
unfolding bar_of
bar_of_lem total start duration h = (ground arith, ground arith)
