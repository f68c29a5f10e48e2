-- ===== src/Traces.antt =====
-- web/src/pages/traces.tsx: the list of traces, the detail of one, and the bars of its spans. `time` is
-- `new Date(text).getTime()` in milliseconds, for times from 1970 on.
pub mod Laws
pub mod Detail
mod Tests
use argus_observability.Prelude.{
  ℕ, ◌+◌, ◌-◌, ◌*◌, ◌/◌, ◌==◌, Bool, true, false, not, ◌&&◌, ◌||◌, Option, none, some, List, [],
  ◌∷◌, map, if◌then◌else◌, leb, ltb, min, max, length, filter,
}
use argus_observability.Prelude.Text.{
  Text, lit, text_eq, is_empty, or_text, trim, has_text, add_text, to_upper_case,
}
use argus_observability.Prelude.Sort.{sort_by}
use argus_observability.Page.Hub.{ListPage}
use argus_observability.Query.{Params, set, delete, patch}
use argus_observability.Api.Types.{TraceSummary, TraceDetail, TraceSpan}

-- The query of a link to a trace.
unfoldable pub trace_query : Text → Params → Params
trace_query trace_id q = delete (lit "page") (set (lit "trace_id") trace_id q)

-- The form that opens a trace.
unfoldable pub open_trace : Text → Params → Params
open_trace draft url =
    if is_empty (trim draft) then url else patch ((lit "trace_id", some (trim draft)) ∷ []) [] url

abbrev pub no_traces : ListPage TraceSummary
no_traces = record { entries = []; total = 0; limit = 50; offset = 0; truncated = false }

pub record TraceListState : Type 0 where
  pub result : ListPage TraceSummary
  pub services : List Text
  pub loading : Bool
  pub error : Option Text

abbrev pub list_opened : TraceListState
list_opened = record { result = no_traces; services = []; loading = true; error = none }

unfoldable pub list_load : TraceListState → TraceListState
list_load s = record s { loading = true }

-- `a <= b` in the order of code units, which `sort` uses.
unfoldable pub text_le : Text → Text → Bool
text_le [] b = true
text_le (x ∷ a) [] = false
text_le (x ∷ a) (y ∷ b) = ltb x y || (x == y && text_le a b)

unfoldable pub add_services : List TraceSummary → List Text → List Text
add_services [] seen = seen
add_services (row ∷ entries) seen =
    add_services entries (if is_empty row.service then seen else add_text row.service seen)

-- `[...new Set(entries.map((row) => row.service).filter(Boolean))].sort()`.
unfoldable pub services_of : List TraceSummary → List Text
unfolding add_services text_le
services_of entries = sort_by text_le (add_services entries [])

-- `.then` and `.catch` of an answer to the request for a service and a page; the services of the list are read from
-- the first page of all services.
unfoldable pub list_answered :
    Text → ℕ → Option (ListPage TraceSummary) → Text → TraceListState → TraceListState
unfolding services_of
list_answered service page none message s = record s { error = some message }
list_answered service page (some r) message s = record {
  result = r;
  services = if is_empty service && page == 1 then services_of r.entries else s.services;
  loading = s.loading;
  error = none;
}

unfoldable pub list_settled : TraceListState → TraceListState
list_settled s = record s { loading = false }

unfoldable pub service_options : Text → List Text → List Text
service_options service services =
    if not (is_empty service) && not (has_text services service)
    then service ∷ services
    else services

unfoldable pub source_label : (Text → Text) → Text → Text
source_label t source =
    if text_eq source (lit "logs") then t (lit "nav.logs") else to_upper_case source

-- A line of the list; a service without a name is shown by its container, or a dash.
pub record TraceRow : Type 0 where
  pub failed : Bool
  pub metrics_of : Option Text
  pub service : Text
  pub operation : Text
  pub duration : Option ℕ
  pub span_count : ℕ
  pub source : Text

abbrev pub dash : Text
dash = 8212 ∷ []

unfoldable pub trace_row : (Text → Text) → TraceSummary → TraceRow
unfolding source_label
trace_row t row = record {
  failed = row.error;
  metrics_of = if is_empty row.container then none else some row.container;
  service = or_text row.service (or_text row.container dash);
  operation = or_text row.name row.trace_id;
  duration = if row.duration_ms == 0 then none else some row.duration_ms;
  span_count = row.span_count;
  source = source_label t row.source;
}

-- The detail of a trace: an answer counts only if its effect was not cancelled.
pub record DetailState : Type 0 where
  pub detail : Option TraceDetail
  pub loading : Bool
  pub error : Bool

unfoldable pub detail_started : DetailState → DetailState
detail_started s = record s { loading = true; error = false }

unfoldable pub detail_answered : Bool → Option TraceDetail → DetailState → DetailState
detail_answered true answer s = s
detail_answered false (some d) s = record s { detail = some d }
detail_answered false none s = record { detail = none; loading = s.loading; error = true }

unfoldable pub detail_settled : Bool → DetailState → DetailState
detail_settled true s = s
detail_settled false s = record s { loading = false }

pub data DetailBody : Type 0 where
  waiting failed no_spans : DetailBody
  shown : TraceDetail → DetailBody

unfoldable pub detail_body : DetailState → DetailBody
detail_body s = if s.loading then waiting else if s.error then failed else elim s.detail [
  | none ↦ no_spans
  | some d ↦ if length d.spans == 0 then no_spans else shown d
]

module _ (time : Text → ℕ) where
  -- `Math.min(...starts)`.
  unfoldable pub earliest : ℕ → List TraceSpan → ℕ
  earliest least [] = least
  earliest least (sp ∷ spans) = earliest (min least (time sp.start_ts)) spans

  unfoldable pub origin_of : List TraceSpan → ℕ
  origin_of [] = 0
  origin_of (sp ∷ spans) = earliest (time sp.start_ts) spans

-- The width of the whole trace; durations are millionths of a millisecond, so 1 millisecond is a million.
abbrev pub total_width : TraceDetail → ℕ
total_width d = if ltb 0 d.duration_ms then d.duration_ms else 1000000

-- A bar's left edge and width, `left` and `width` of the style, in half percents of the total width: each stands
-- multiplied by 2 and by the total width. The style of a bar that starts behind the trace's end is not modelled.
pub record Bar : Type 0 where
  pub left : ℕ
  pub width : ℕ

unfoldable pub bar_of : ℕ → ℕ → ℕ → Bar
bar_of total start duration =
    let left = start * 200 in
    record {
      left = left;
      width =
          min (max (duration * 200) (if ltb 0 duration then 4 * total else total))
            (200 * total - left);
    }

-- The bars of a detail.
unfoldable pub bars : (Text → ℕ) → TraceDetail → List Bar
unfolding bar_of
bars time d =
    map
      (λ sp.
        bar_of (total_width d) ((time sp.start_ts - origin_of time d.spans) * 1000000)
          sp.duration_ms)
      d.spans
