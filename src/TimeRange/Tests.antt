-- ===== src/TimeRange/Tests.antt =====
-- A custom hour.
use argus_observability.Prelude.{
  ℕ, ◌==◌, true, false, none, some, [], ◌∷◌, ◌++◌, if◌then◌else◌, ◌≡◌, refl, arith, not, and_true,
  Bool-cases, inl, inr,
}
use argus_observability.Prelude.Text.{Text, lit, text_eq}
use argus_observability.Topology.Address.{is_digit, all_units}
use argus_observability.TimeRange.{
  dot, Clock, is_custom_range, split_range, to_rfc3339, range_from_local, range_between,
  drop_millis, is_millis,
}
use argus_observability.TimeRange.Laws.{IsIso, NoDot, range_from_local-split}
use argus_observability.TimeRange.Picker.{Picker, apply_custom}

abbrev hour : ℕ
hour = 3600000

abbrev body_of : ℕ → Text
unfolding lit
body_of time = if time == 0 then lit "1970-01-01T00:00:00" else lit "1970-01-01T01:00:00"

abbrev clock : Clock
unfolding lit text_eq
clock = record {
  parse = λ text.
      if text_eq text (lit "1970-01-01T00:00")
      then some 0
      else if text_eq text (lit "1970-01-01T01:00")
      then some hour
      else none;
  parts = λ time. record { year = 1970; month = 0; day = 1; hours = time; minutes = 0 };
  to_iso = λ time. body_of time ++ lit ".000Z";
  now = hour;
}

NoDot-of_test : (text : Text) → all_units (λ c. not (c == dot)) text ≡ true → NoDot text
unfolding all_units
NoDot-of_test [] h = tt
NoDot-of_test (c ∷ text) h =
    let (p, q) = and_true (not (c == dot)) (all_units (λ u. not (u == dot)) text) h in
    ((λ e. ground arith), NoDot-of_test text q)

body_of-NoDot : (time : ℕ) → NoDot (body_of time)
unfolding lit body_of all_units
body_of-NoDot time = elim (Bool-cases (time == 0)) [
  | inl e ↦ rw e (NoDot-of_test (lit "1970-01-01T00:00:00") refl)
  | inr e ↦ rw e (NoDot-of_test (lit "1970-01-01T01:00:00") refl)
]

clock-IsIso : (time : ℕ) → IsIso (clock.to_iso time)
unfolding lit clock is_digit
clock-IsIso time = record {
  body = body_of time;
  a = b'0';
  b = b'0';
  c = b'0';
  is_whole = refl;
  no_dot = body_of-NoDot time;
  are_digits = refl;
}

range_run :
    range_from_local clock (lit "1970-01-01T00:00") (lit "1970-01-01T01:00")
    ≡ some (lit "1970-01-01T00:00:00Z..1970-01-01T01:00:00Z")
unfolding range_from_local range_between to_rfc3339 drop_millis is_millis is_digit lit clock text_eq
    body_of
range_run = refl

range_from_local-split_example :
    (value : Text) × (range_from_local clock (lit "1970-01-01T00:00") (lit "1970-01-01T01:00")
      ≡ some value)
    × (is_custom_range value ≡ true)
    × (split_range value
        ≡ some (record { start = to_rfc3339 clock 0; end = to_rfc3339 clock hour }))
unfolding clock lit text_eq
range_from_local-split_example =
    range_from_local-split clock clock-IsIso (lit "1970-01-01T00:00") (lit "1970-01-01T01:00") 0
      hour refl refl (omega arith) (omega arith)

abbrev picker : Picker
unfolding lit
picker = record {
  drafting = true;
  start = lit "1970-01-01T00:00";
  end = lit "1970-01-01T01:00";
  invalid = false;
}

applied_run :
    (apply_custom clock picker).1 ≡ some (lit "1970-01-01T00:00:00Z..1970-01-01T01:00:00Z")
unfolding apply_custom range_from_local range_between to_rfc3339 drop_millis is_millis is_digit lit
    clock text_eq body_of picker
applied_run = refl
