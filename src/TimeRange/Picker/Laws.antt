-- ===== src/TimeRange/Picker/Laws.antt =====
-- What the picker shows after a custom range is applied.
use argus_observability.Prelude.{
  ℕ, true, false, none, some, ◌≡◌, refl, subst, Option-cases, inl, inr, ◌∙◌,
}
use argus_observability.Prelude.Text.{Text}
use argus_observability.TimeRange.{
  Clock, is_custom_range, split_range, to_local_input, range_from_local, to_rfc3339,
}
use argus_observability.TimeRange.Laws.{IsIso, range_from_local-split, range_from_local-some}
use argus_observability.TimeRange.Picker.{Picker, value_changed, apply_custom}

sent :
    (clock : Clock) (p : Picker) (value : Text)
    → (apply_custom clock p).1 ≡ some value
    → range_from_local clock p.start p.end ≡ some value
unfolding apply_custom
sent clock p value h = elim (Option-cases (range_from_local clock p.start p.end)) [
  | inl e ↦ let n : none ≡ some value = rw (e, apply_custom) at h in cc
  | inr (v, e) ↦ let n : some v ≡ some value = rw (e, apply_custom) at h in e ∙ n
]

-- When the picker applies a custom range, the value that it passes on opens the picker again with two times that the
-- clock knows, and without an error.
pub apply_custom-value_changed :
    (clock : Clock)
    → ((time : ℕ) → IsIso (clock.to_iso time))
    → (p q : Picker) (value : Text) → (apply_custom clock p).1 ≡ some value
    → (start : ℕ) × (end : ℕ) × (clock.parse p.start ≡ some start)
      × (clock.parse p.end ≡ some end)
      × (is_custom_range value ≡ true)
      × (value_changed clock value q ≡ record {
        drafting = true;
        start = to_local_input clock (to_rfc3339 clock start);
        end = to_local_input clock (to_rfc3339 clock end);
        invalid = false;
      })
unfolding value_changed
apply_custom-value_changed clock law p q value h =
    let (start, end, a, b, lt, le) =
      range_from_local-some clock p.start p.end value (sent clock p value h) in
    let (v, made, custom, parsed) =
      range_from_local-split clock law p.start p.end start end a b lt le in
    let found = sent clock p value h in
    let same : v ≡ value = cc in
    let read : split_range value
        ≡ some (record { start = to_rfc3339 clock start; end = to_rfc3339 clock end }) =
      subst
        (λ x.
          split_range x
          ≡ some (record { start = to_rfc3339 clock start; end = to_rfc3339 clock end }))
        same parsed in
    (
      start,
      end,
      a,
      b,
      subst (λ x. is_custom_range x ≡ true) same custom,
      rw (read, value_changed) refl,
    )
