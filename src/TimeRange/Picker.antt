-- ===== src/TimeRange/Picker.antt =====
-- web/src/components/filters/time-range-picker.tsx: the state of the picker and its handlers. A handler that calls
-- `onChange` returns the value it passes.
pub mod Laws
use argus_observability.Prelude.{
  Bool, true, false, not, ◌&&◌, ◌||◌, Option, none, some, List, [], ◌∷◌, map, if◌then◌else◌,
}
use argus_observability.Prelude.Text.{Text, text_eq, is_empty}
use argus_observability.Observability.{time_ranges}
use argus_observability.TimeRange.{
  Clock, Range, is_custom_range, split_range, to_local_input, range_from_local, default_local_range,
}

pub record Picker : Type 0 where
  pub drafting : Bool
  pub start : Text
  pub end : Text
  pub invalid : Bool

unfoldable pub opened : Text → Picker
opened value = record { drafting = is_custom_range value; start = []; end = []; invalid = false }

module _ (clock : Clock) where
  -- The effect on a new value.
  unfoldable pub value_changed : Text → Picker → Picker
  value_changed value p = elim (split_range value) [
    | none ↦ record p { drafting = false; invalid = false }
    | some parsed ↦ record {
      drafting = true;
      start = to_local_input clock parsed.start;
      end = to_local_input clock parsed.end;
      invalid = false;
    }
  ]

  unfoldable pub open_custom : Picker → Picker
  open_custom p =
      let next = default_local_range clock in
      let missing = is_empty p.start || is_empty p.end in
      record {
        drafting = true;
        start = if missing then next.start else p.start;
        end = if missing then next.end else p.end;
        invalid = false;
      }

  unfoldable pub apply_custom : Picker → Picker × Option Text
  apply_custom p = elim (range_from_local clock p.start p.end) [
    | none ↦ (record p { invalid = true }, none)
    | some next ↦ (record p { invalid = false }, some next)
  ]

unfoldable pub choose_preset : Text → Picker → Picker × Option Text
choose_preset id p = (record p { drafting = false; invalid = false }, some id)

abbrev pub custom_active : Text → Picker → Bool
custom_active value p = is_custom_range value || p.drafting

-- Whether each preset's button is pressed.
unfoldable pub pressed : Text → Picker → List Bool
pressed value p = map (λ id. not (custom_active value p) && text_eq value id) time_ranges
