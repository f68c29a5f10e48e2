-- ===== src/Logs.antt =====
-- web/src/pages/logs.tsx: the filters of the page, the request of its lines, the handlers, and what it shows.
pub mod Laws
pub mod Lines
pub mod Patterns
mod Tests
use argus_observability.Prelude.{
  ℕ, ◌+◌, ◌-◌, ◌*◌, ◌==◌, Bool, true, false, not, ◌&&◌, ◌||◌, Option, none, some, List, [], ◌∷◌,
  if◌then◌else◌, leb, ltb, take, length,
}
use argus_observability.Prelude.Text.{Text, lit, text_eq, is_empty, trim}
use argus_observability.Api.Types.{LogSearchParams, LogPattern}
use argus_observability.Query.{Params, patch, query_value, set_query}

-- The values of the query in the URL, the page excepted.
pub record Filters : Type 0 where
  pub mode : Text
  pub q : Text
  pub trace_id : Text
  pub since : Text
  pub level : Text
  pub topic : Text
  pub container : Text
  pub group : Text

unfoldable pub read_filters : Params → Filters
read_filters url =
    let trace = query_value (lit "trace_id") [] url in
    record {
      mode = query_value (lit "mode") (lit "lines") url;
      q = query_value (lit "q") [] url;
      trace_id = trace;
      since = query_value (lit "since") (if is_empty trace then lit "1h" else lit "24h") url;
      level = query_value (lit "level") (lit "all") url;
      topic = query_value (lit "topic") (lit "all") url;
      container = query_value (lit "container") (lit "all") url;
      group = query_value (lit "group") [] url;
    }

-- A draft in a field, and the value of the URL that it was last set from.
pub record Draft : Type 0 where
  pub text : Text
  pub seen : Text

-- `if (q !== qSeen) { setQSeen(q); setQueryDraft(q) }`.
unfoldable pub follow : Text → Draft → Draft
follow value d = if text_eq value d.seen then d else record { text = value; seen = value }

abbrev pub patterns_mode : Filters → Bool
patterns_mode f = text_eq f.mode (lit "patterns")

abbrev pub trace_active : Filters → Bool
trace_active f = not (patterns_mode f) && not (is_empty f.trace_id)

-- The handlers that write the URL.
unfoldable pub choose_group : Filters → Text → Params → Params
choose_group f v url =
    patch
      ((lit "group", some v)
        ∷ (lit "container", if is_empty v then some f.container else none)
        ∷ [])
      [] url

unfoldable pub choose_mode : Text → Params → Params
choose_mode v url =
    patch ((lit "mode", some v) ∷ (lit "page", none) ∷ []) ((lit "mode", lit "lines") ∷ []) url

unfoldable pub submit_query : Text → Params → Params
submit_query draft url = patch ((lit "q", some (trim draft)) ∷ []) [] url

unfoldable pub submit_trace : Filters → Text → Params → Params
submit_trace f draft url =
    let tid = trim draft in
    let window = if not (is_empty tid) && text_eq f.since (lit "1h") then lit "24h" else f.since in
    patch ((lit "trace_id", some tid) ∷ (lit "since", some window) ∷ [])
      ((lit "since", lit "1h") ∷ []) url

unfoldable pub clear_trace : Params → Params
clear_trace url = patch ((lit "trace_id", none) ∷ []) [] url

unfoldable pub open_lines : LogPattern → Params → Params
open_lines p url =
    patch
      ((lit "mode", none)
        ∷ (lit "q", some (take 40 p.pattern_text))
        ∷ (lit "container", some p.container)
        ∷ (lit "group", none)
        ∷ [])
      [] url

abbrev pub maybe : Text → Option Text
maybe v = if is_empty v then none else some v

-- The arguments of `searchLogs` for a page, which is at least 1.
unfoldable pub lines_request : Filters → ℕ → LogSearchParams
lines_request f page = record {
  q = some f.q;
  since = some f.since;
  level = some f.level;
  topic = some f.topic;
  trace_id = maybe f.trace_id;
  container =
      if not (is_empty f.trace_id) || not (is_empty f.group) then none else some f.container;
  group = if is_empty f.trace_id then maybe f.group else none;
  limit = some 50;
  offset = some ((page - 1) * 50);
}
