-- ===== src/TimeRange.antt =====
-- web/src/lib/time-range.ts and web/src/components/filters/time-range-picker.tsx: the time range in the URL. A
-- `Clock` is the browser's `Date`: times are milliseconds since 1970, and a custom range starts with two dots
-- between two times. Times before 1970 are not modelled.
pub mod Laws
pub mod Picker
mod Tests
use argus_observability.Prelude.{
  ℕ, zero, suc, ◌+◌, ◌-◌, ◌*◌, ◌==◌, Bool, true, false, ◌&&◌, ◌||◌, Option, none, some, List, [],
  ◌∷◌, ◌++◌, if◌then◌else◌, leb, ltb, length,
}
use argus_observability.Prelude.Text.{Text, lit, is_empty, includes}
use argus_observability.Prelude.Decimal.{decimal}
use argus_observability.Topology.Address.{is_digit}

abbrev pub dot : ℕ
dot = b'.'

-- The parts of a local date.
pub record DateParts : Type 0 where
  pub year : ℕ
  pub month : ℕ
  pub day : ℕ
  pub hours : ℕ
  pub minutes : ℕ

-- `parse` is `new Date(text).getTime()`, `none` for `NaN`; `parts` are the getters of local time, with months
-- from 0; `to_iso` is `toISOString`.
pub record Clock : Type 0 where
  pub parse : Text → Option ℕ
  pub parts : ℕ → DateParts
  pub to_iso : ℕ → Text
  pub now : ℕ

pub record Range : Type 0 where
  pub start : Text
  pub end : Text

abbrev pub max_ms : ℕ
max_ms = 24 * 60 * 60 * 1000

unfoldable pub is_custom_range : Text → Bool
is_custom_range value = includes value (lit "..")

abbrev put : ℕ → Option (Text × Text) → Option (Text × Text)
put c none = none
put c (some (a, b)) = some (c ∷ a, b)

-- The text before the first two dots and the text behind them: `indexOf("..")` and the two slices.
unfoldable pub cut_dots : Text → Option (Text × Text)
cut_dots [] = none
cut_dots (c ∷ []) = none
cut_dots (c ∷ d ∷ rest) =
    let more = cut_dots (d ∷ rest) in if c == dot && d == dot then some ([], rest) else put c more

unfoldable pub split_range : Text → Option Range
unfolding cut_dots
split_range value = elim (cut_dots value) [
  | none ↦ none
  | some (start, end) ↦
      if is_empty start || is_empty end then none else some (record { start = start; end = end })
]

-- `String(n).padStart(2, "0")`.
unfoldable pub pad : ℕ → Text
unfolding decimal
pad n = let digits = decimal n in if ltb (length digits) 2 then lit "0" ++ digits else digits

-- Does the text match `\.\d{3}Z` to its end?
unfoldable pub is_millis : Text → Bool
is_millis (a ∷ b ∷ c ∷ d ∷ e ∷ []) = a == dot && is_digit b && is_digit c && is_digit d && e == b'Z'
is_millis text = false

-- `replace(/\.\d{3}Z$/, "Z")`.
unfoldable pub drop_millis : Text → Text
unfolding is_millis
drop_millis [] = []
drop_millis (c ∷ rest) =
    let kept = drop_millis rest in if is_millis (c ∷ rest) then lit "Z" else c ∷ kept

module _ (clock : Clock) where
  unfoldable pub to_local_input : Text → Text
  unfolding pad
  to_local_input iso = elim (clock.parse iso) [
    | none ↦ []
    | some time ↦
        let d = clock.parts time in
        decimal d.year
        ++ (lit "-"
            ++ (pad (d.month + 1)
                ++ (lit "-"
                    ++ (pad d.day ++ (lit "T" ++ (pad d.hours ++ (lit ":" ++ pad d.minutes)))))))
  ]

  unfoldable pub to_rfc3339 : ℕ → Text
  to_rfc3339 time = drop_millis (clock.to_iso time)

  -- `rangeFromLocal` for two times.
  unfoldable pub range_between : ℕ → ℕ → Option Text
  range_between start end =
      if leb end start
      then none
      else if ltb max_ms (end - start)
      then none
      else some (to_rfc3339 start ++ (lit ".." ++ to_rfc3339 end))

  unfoldable pub range_from_local : Text → Text → Option Text
  range_from_local start_local end_local = elim (clock.parse start_local) [
    | none ↦ none
    | some start ↦ elim (clock.parse end_local) [ none ↦ none | some end ↦ range_between start end ]
  ]

  unfoldable pub default_local_range : Range
  default_local_range = record {
    start = to_local_input (clock.to_iso (clock.now - 60 * 60 * 1000));
    end = to_local_input (clock.to_iso clock.now);
  }
