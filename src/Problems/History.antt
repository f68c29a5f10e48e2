-- ===== src/Problems/History.antt =====
-- web/src/views/event-history.tsx: the events of the time range, by pages; and the effect that goes back to the first page
-- when the filters change, as in web/src/pages/logs.tsx, traces.tsx, containers.tsx and views/log-patterns.tsx.
use argus_observability.Prelude.{
  ℕ, ◌+◌, ◌-◌, ◌*◌, ◌==◌, Bool, true, false, ◌&&◌, Option, none, some, List, [], ◌∷◌, ◌++◌, map,
  take, length, if◌then◌else◌, or_default, ◌≡◌, ◌≢◌, refl, Bool-cases, inl, inr,
}
use argus_observability.Prelude.Text.{Text, lit, text_eq, text_eq_refl, join, split, last_or}
use argus_observability.Query.{Params, get, query_value, set_query}
use argus_observability.Query.Laws.{query_value-set_query}
use argus_observability.Page.Hub.{ListPage, Fields, end, field, Json}
use argus_observability.Api.Types.{EventRow}
use argus_observability.Fleet.{BadgeVariant, outline, severity_variant, severity_label}

-- The effect with the ref of the filters seen last: the ref and the URL after it.
unfoldable pub reset_page : Text → Text → Params → Text × Params
reset_page filter_key seen url =
    let next = set_query (lit "page") (lit "1") (lit "1") url in
    if text_eq seen filter_key then (seen, url) else (filter_key, next)

-- The keys of the filters in the five lists.
unfoldable pub filter_key : List Text → Text
filter_key values = join (lit "|") values

abbrev pub no_events : ListPage EventRow
no_events = record { entries = []; total = 0; limit = 50; offset = 0; truncated = false }

pub record HistoryState : Type 0 where
  pub result : ListPage EventRow
  pub loading : Bool
  pub error : Option Text

abbrev pub history_opened : HistoryState
history_opened = record { result = no_events; loading = true; error = none }

-- The limit and the offset of the request for a page.
unfoldable pub events_request : ℕ → ℕ × ℕ
events_request page = (50, (page - 1) * 50)

-- `.then`, `.catch` and `.finally` of an answer, whatever page it belongs to.
unfoldable pub history_answered : Text → Option (ListPage EventRow) → HistoryState → HistoryState
history_answered message (some ev) s = record { result = ev; loading = false; error = none }
history_answered message none s = record {
  result = s.result;
  loading = false;
  error = some message;
}

-- `Object.entries` of an object whose names are different.
abbrev entries_of : Fields → List (Text × Json)
entries_of end = []
entries_of (field k v fs) = (k, v) ∷ entries_of fs

-- `formatPayload`; `show` is `String(v)`.
unfoldable pub format_payload : (Json → Text) → Option Fields → Text
format_payload show none = 8212 ∷ []
format_payload show (some end) = 8212 ∷ []
format_payload show (some (field k v fs)) =
    join (lit ", ") (map (λ e. e.0 ++ (lit "=" ++ show e.1)) (take 3 (entries_of (field k v fs))))

pub record HistoryRow : Type 0 where
  pub kind : Text
  pub variant : BadgeVariant
  pub label : Text
  pub container : Text
  pub link : Text
  pub source : Text
  pub payload : Text

unfoldable pub history_row : (Text → Text) → (Text → Text) → (Json → Text) → EventRow → HistoryRow
unfolding format_payload
history_row t encode show e =
    let container = last_or [] (split b':' e.entity_uid) in
    record {
      kind = e.kind;
      variant = or_default (severity_variant e.severity) outline;
      label = severity_label t e.severity;
      container = container;
      link = lit "/logs?container=" ++ encode container;
      source = e.source;
      payload = format_payload show e.payload;
    }

pub data HistoryBody : Type 0 where
  skeleton no_rows : HistoryBody
  rows : List EventRow → HistoryBody

unfoldable pub history_body : HistoryState → HistoryBody
history_body s =
    if s.loading && length s.result.entries == 0
    then skeleton
    else if length s.result.entries == 0
    then no_rows
    else rows s.result.entries

-- The arguments of the pager: start, end, and the size of a page.
unfoldable pub history_range : ListPage EventRow → ℕ × ℕ × ℕ
history_range r = (
  if r.total == 0 then 0 else r.offset + 1,
  r.offset + length r.entries,
  if r.limit == 0 then 50 else r.limit,
)

-- The effect leaves the URL as it is while the filters are those seen last. When they change, the page is the first
-- and every other name of the URL keeps its value. From then on the effect has seen them: whatever the URL becomes
-- under the same filters, such as another page, the effect keeps it.
pub reset_page_lem :
    (key seen other : Text) (url later : Params)
    → other ≢ lit "page"
    → (query_value (lit "page") (lit "1") (reset_page key seen url).1
        ≡ (if text_eq seen key then query_value (lit "page") (lit "1") url else lit "1"))
      × (get other (reset_page key seen url).1 ≡ get other url)
      × ((reset_page key (reset_page key seen url).0 later).1 ≡ later)
unfolding reset_page lit
reset_page_lem key seen other url later h = elim (Bool-cases (text_eq seen key)) [
  | inl e ↦ rw e (refl, refl, rw e refl)
  | inr e ↦
      let (reads, others) = query_value-set_query (lit "page") (lit "1") (lit "1") other url h in
      rw (e, text_eq_refl key) (reads, others, refl)
]
