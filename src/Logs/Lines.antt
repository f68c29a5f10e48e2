-- ===== src/Logs/Lines.antt =====
-- web/src/pages/logs.tsx: the lines of the log: their loading, and what a line shows.
use argus_observability.Prelude.{
  ℕ, ◌+◌, ◌==◌, Bool, true, false, not, Option, none, some, List, [], ◌∷◌, ◌++◌, if◌then◌else◌, leb,
  length, take, filter,
}
use argus_observability.Prelude.Text.{Text, lit, text_eq, is_empty, split, last_or}
use argus_observability.Page.Hub.{Json, str, Fields, ListPage, get_field}
use argus_observability.Api.Types.{LogRow}
use argus_observability.Fleet.{BadgeVariant, destructive, secondary, outline}
use argus_observability.Format.Ansi.{strip_ansi}

abbrev pub no_lines : ListPage LogRow
no_lines = record { entries = []; total = 0; limit = 50; offset = 0; truncated = false }

pub record LinesState : Type 0 where
  pub result : ListPage LogRow
  pub loading : Bool
  pub error : Option Text

abbrev pub lines_opened : LinesState
lines_opened = record { result = no_lines; loading = true; error = none }

-- `.then`, `.catch` and `.finally` of an answer, whatever load it belongs to.
unfoldable pub lines_answered : Option (ListPage LogRow) → Text → LinesState → LinesState
lines_answered (some r) message s = record { result = r; loading = s.loading; error = none }
lines_answered none message s = record {
  result = no_lines;
  loading = s.loading;
  error = some message;
}

unfoldable pub lines_settled : LinesState → LinesState
lines_settled s = record s { loading = false }

pub data LinesBody : Type 0 where
  waiting nothing : LinesBody
  rows : List LogRow → LinesBody

unfoldable pub lines_body : LinesState → LinesBody
lines_body s =
    if length s.result.entries == 0
    then (if s.loading then waiting else nothing)
    else rows s.result.entries

-- The range that the pager shows.
unfoldable pub lines_range : ListPage LogRow → ℕ × ℕ
lines_range r = (if r.total == 0 then 0 else r.offset + 1, r.offset + length r.entries)

abbrev pub lines_page_size : ListPage LogRow → ℕ
lines_page_size r = if r.limit == 0 then 50 else r.limit

unfoldable pub level_variant : Text → BadgeVariant
level_variant level =
    if text_eq level (lit "error")
    then destructive
    else if text_eq level (lit "warn")
    then secondary
    else if text_eq level (lit "warning")
    then secondary
    else outline

-- The table `levelKey`.
unfoldable pub level_key : Text → Option Text
level_key level =
    if text_eq level (lit "error")
    then some (lit "error")
    else if text_eq level (lit "warn")
    then some (lit "warn")
    else if text_eq level (lit "warning")
    then some (lit "warn")
    else if text_eq level (lit "info")
    then some (lit "info")
    else if text_eq level (lit "debug")
    then some (lit "debug")
    else none

unfoldable pub level_label : (Text → Text) → Text → Text
unfolding level_key
level_label t level =
    if text_eq level (lit "all")
    then t (lit "logs.all")
    else elim (level_key level) [ none ↦ level | some key ↦ t (lit "logs.levels." ++ key) ]

abbrev field_text : Option Json → Option Text
field_text (some (str s)) = if is_empty s then none else some s
field_text _ = none

unfoldable pub get_trace_id : LogRow → Option Text
get_trace_id row = elim row.fields [
  | none ↦ none
  | some fs ↦ field_text (get_field (lit "trace_id") fs)
]

abbrev pub ellipsis : ℕ
ellipsis = 8230

unfoldable pub format_trace_short : Text → Text
format_trace_short id = if leb (length id) 12 then id else take 8 id ++ (ellipsis ∷ [])

-- `row.entity_uid.split(":").pop()`.
unfoldable pub container_of : LogRow → Text
container_of row = last_or [] (split b':' row.entity_uid)

-- `row.fields?.topics`, read as the texts that the hub sends.
abbrev pub topics_of : (Fields → Option (List Text)) → LogRow → List Text
topics_of topics row = elim row.fields [
  | none ↦ []
  | some fs ↦ elim (topics fs) [ none ↦ [] | some ts ↦ ts ]
]

pub record LineView : Type 0 where
  pub variant : BadgeVariant
  pub level : Text
  pub container : Text
  pub trace : Option (Text × Text)
  pub topics : List Text
  pub message : Text

abbrev trace_cell : Option Text → Option (Text × Text)
trace_cell none = none
trace_cell (some tid) = some (tid, format_trace_short tid)

unfoldable pub line_view : (Text → Text) → (Fields → Option (List Text)) → LogRow → LineView
line_view t topics row = record {
  variant = level_variant row.level;
  level = level_label t row.level;
  container = container_of row;
  trace = trace_cell (get_trace_id row);
  topics = filter (λ topic. not (text_eq topic (lit "general"))) (topics_of topics row);
  message = strip_ansi row.message;
}
