-- ===== src/Logs/Laws.antt =====
-- What the lines are asked for, and what the handlers write.
use argus_observability.Prelude.{
  ℕ, ◌-◌, ◌*◌, false, not, ◌||◌, ◌&&◌, Option, none, some, List, [], ◌∷◌, if◌then◌else◌, ◌≡◌, ◌≢◌,
  refl, ◌∙◌, sym, Bool-cases, inl, inr,
}
use argus_observability.Prelude.Text.{Text, lit, text_eq, is_empty, trim, text_eq_iff}
use argus_observability.Prelude.Decimal.{decimal}
use argus_observability.Query.{Params, get, patch, is_default, lookup}
use argus_observability.Query.Laws.{get-patch}
use argus_observability.Api.Calls.{search_logs_params}
use argus_observability.Api.Laws.{chosen, present, search_logs_params-SendsSearch}
use argus_observability.Logs.{Filters, lines_request, submit_trace, maybe}

-- The scope of a search: a trace leaves out the container and the group, and a group leaves out the container.
abbrev pub Scope : Filters → Params → Type 0
Scope f sent =
    (get (lit "trace_id") sent ≡ maybe f.trace_id)
    × (get (lit "group") sent ≡ (if is_empty f.trace_id then maybe f.group else none))
    × (get (lit "container") sent
        ≡ (if is_empty f.trace_id && is_empty f.group then chosen (some f.container) else none))

sent_trace : (t : Text) → present (maybe t) ≡ maybe t
sent_trace [] = refl
sent_trace (c ∷ t) = refl

sent_group :
    (t g : Text)
    → present (if is_empty t then maybe g else none) ≡ (if is_empty t then maybe g else none)
sent_group [] [] = refl
sent_group [] (d ∷ g) = refl
sent_group (c ∷ t) g = refl

sent_container :
    (t g c : Text)
    → chosen (if not (is_empty t) || not (is_empty g) then none else some c)
      ≡ (if is_empty t && is_empty g then chosen (some c) else none)
sent_container [] [] c = refl
sent_container [] (d ∷ g) c = refl
sent_container (d ∷ t) g c = refl

-- The request of the lines asks for the page's window and offset, and for one scope only: the trace if there is one,
-- else the group if there is one, else the container unless it is "all".
pub search_logs_params-lines_request :
    (f : Filters) (page : ℕ)
    → (get (lit "since") (search_logs_params (lines_request f page)) ≡ some f.since)
      × (get (lit "offset") (search_logs_params (lines_request f page))
          ≡ some (decimal ((page - 1) * 50)))
      × Scope f (search_logs_params (lines_request f page))
unfolding lines_request
search_logs_params-lines_request f page =
    let sends = search_logs_params-SendsSearch (lines_request f page) in
    (
      sends.since,
      sends.offset,
      (
        sends.trace_id ∙ sent_trace f.trace_id,
        sends.group ∙ sent_group f.trace_id f.group,
        sends.container ∙ sent_container f.trace_id f.group f.container,
      ),
    )

abbrev entries : Text → Text → List (Text × Option Text)
entries tid window = (lit "trace_id", some tid) ∷ (lit "since", some window) ∷ []

abbrev window_default : List (Text × Text)
window_default = (lit "since", lit "1h") ∷ []

get-trace_id :
    (tid window : Text) (url : Params)
    → get (lit "trace_id") (patch (entries tid window) window_default url) ≡ maybe tid
unfolding lit text_eq is_default lookup
get-trace_id [] window url = get-patch (lit "trace_id") (entries [] window) window_default url
get-trace_id (c ∷ tid) window url =
    get-patch (lit "trace_id") (entries (c ∷ tid) window) window_default url

get-since :
    (tid window : Text) (url : Params)
    → get (lit "since") (patch (entries tid window) window_default url)
      ≡ (if is_empty window || text_eq window (lit "1h") then none else some window)
unfolding lit is_default lookup text_eq
get-since tid window url = get-patch (lit "since") (entries tid window) window_default url

other_text : (a b : Text) → a ≢ b → text_eq b a ≡ false
other_text a b h = elim (Bool-cases (text_eq b a)) [
  | inl e ↦ absurd (h (sym ((text_eq_iff b a).0 e)))
  | inr e ↦ e
]

get-other :
    (j tid window : Text) (url : Params)
    → j ≢ lit "trace_id"
    → j ≢ lit "since"
    → get j (patch (entries tid window) window_default url) ≡ get j url
get-other j tid window url h k =
    rw
      (
        get-patch j (entries tid window) window_default url,
        other_text j (lit "trace_id") h,
        other_text j (lit "since") k,
      )
      refl

-- The window that the form of the trace writes: a day in place of the last hour.
abbrev pub window_of : Filters → Text → Text
window_of f draft =
    if not (is_empty (trim draft)) && text_eq f.since (lit "1h") then lit "24h" else f.since

-- After the form of the trace is sent, the URL holds the trimmed trace, or none if that is empty; the window is a day if
-- a trace is set while the last hour is shown, else the window shown, which is left out if it is the last hour; any
-- other name keeps its value.
pub submit_trace_lem :
    (f : Filters) (draft j : Text) (url : Params)
    → j ≢ lit "trace_id"
    → j ≢ lit "since"
    → (get (lit "trace_id") (submit_trace f draft url) ≡ maybe (trim draft))
      × (get (lit "since") (submit_trace f draft url) ≡ (
          if is_empty (window_of f draft) || text_eq (window_of f draft) (lit "1h")
          then none
          else some (window_of f draft)))
      × (get j (submit_trace f draft url) ≡ get j url)
unfolding submit_trace
submit_trace_lem f draft j url h k = (
  get-trace_id (trim draft) (window_of f draft) url,
  get-since (trim draft) (window_of f draft) url,
  get-other j (trim draft) (window_of f draft) url h k,
)
