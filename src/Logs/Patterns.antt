-- ===== src/Logs/Patterns.antt =====
-- web/src/views/log-patterns.tsx: the patterns of the logs, by pages of the panel.
use argus_observability.Prelude.{
  ℕ, Bool, true, false, ◌&&◌, ◌==◌, Option, none, some, List, [], map, length, if◌then◌else◌, leb,
}
use argus_observability.Prelude.Text.{Text, lit, or_text}
use argus_observability.Api.Types.{LogPattern}
use argus_observability.Fleet.{BadgeVariant, destructive, secondary, outline}
use argus_observability.Page.{PageSlice, page_slice, page_size}

pub record PatternsState : Type 0 where
  pub rows : List LogPattern
  pub loading : Bool
  pub error : Option Text

abbrev pub patterns_opened : PatternsState
patterns_opened = record { rows = []; loading = true; error = none }

-- `.then`, `.catch` and `.finally`; `message` is the translation of `logs.patternsError`.
unfoldable pub patterns_answered : Text → Option (List LogPattern) → PatternsState → PatternsState
patterns_answered message (some r) s = record { rows = r; loading = false; error = none }
patterns_answered message none s = record { rows = s.rows; loading = false; error = some message }

-- A card of a pattern: its title, its badge, and the key of its count.
pub record PatternCard : Type 0 where
  pub title : Text
  pub variant : BadgeVariant
  pub label : Text × Option ℕ
  pub container : Text
  pub pattern_text : Text

unfoldable pub pattern_card : LogPattern → PatternCard
pattern_card p = record {
  title = or_text p.service p.container;
  variant = if leb 200 p.count then destructive else if leb 50 p.count then secondary else outline;
  label =
      if p.count == 1
      then (lit "logs.oneOccurrence", none)
      else (lit "logs.nOccurrences", some p.count);
  container = p.container;
  pattern_text = p.pattern_text;
}

pub data PatternsBody : Type 0 where
  pattern_skeleton no_patterns : PatternsBody
  patterns_failed : Text → PatternsBody
  cards : List PatternCard → PageSlice LogPattern → PatternsBody

-- The body for a page of the URL.
unfoldable pub patterns_body : PatternsState → ℕ → PatternsBody
unfolding pattern_card
patterns_body s page =
    let slice = page_slice s.rows page page_size in
    if s.loading && length s.rows == 0 then pattern_skeleton else elim s.error [
      | some message ↦ patterns_failed message
      | none ↦ if length s.rows == 0 then no_patterns else cards (map pattern_card slice.rows) slice
    ]
