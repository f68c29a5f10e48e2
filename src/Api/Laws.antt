-- ===== src/Api/Laws.antt =====
-- What the calls of api.ts send and how they answer a failure.
use argus_observability.Prelude.{
  true, false, ◌||◌, Option, none, some, [], if◌then◌else◌, or_default, ◌≡◌, refl, sym, subst,
  arith, ◌↔◌, Bool-cases, inl, inr,
}
use argus_observability.Prelude.Text.{Text, lit, text_eq, is_empty}
use argus_observability.Prelude.Decimal.{decimal}
use argus_observability.Page.Hub.{Json, as_array}
use argus_observability.Query.{Params, get}
use argus_observability.Query.Laws.{get-set}
use argus_observability.Api.Types.{LogSearchParams}
use argus_observability.Api.Fetch.{Result, ok, err, Response, request, status_line, map_result}
use argus_observability.Api.Calls.{
  Platform, set_present, set_chosen, search_logs_params, get_call, get_json, with_since,
  list_workloads,
}

-- A filter that is sent only if it has a text.
abbrev pub present : Option Text → Option Text
present none = none
present (some v) = if is_empty v then none else some v

-- A filter that is sent only if it has a text other than "all".
abbrev pub chosen : Option Text → Option Text
chosen none = none
chosen (some v) = if is_empty v || text_eq v (lit "all") then none else some v

abbrev or_else : Option Text → Option Text → Option Text
or_else none d = d
or_else (some v) d = some v

get-set_present :
    (j key : Text) (v : Option Text) (p : Params)
    → get j (set_present key v p)
      ≡ (if text_eq key j then or_else (present v) (get j p) else get j p)
unfolding set_present
get-set_present j key none p = ground arith
get-set_present j key (some v) p = ground (arith, get-set j key v p)

get-set_chosen :
    (j key : Text) (v : Option Text) (p : Params)
    → get j (set_chosen key v p) ≡ (if text_eq key j then or_else (chosen v) (get j p) else get j p)
unfolding set_chosen
get-set_chosen j key none p = ground arith
get-set_chosen j key (some v) p = ground (arith, get-set j key v p)

get-nil : (j : Text) → get j [] ≡ none
unfolding get
get-nil j = refl

or_else-none : (o : Option Text) → or_else o none ≡ o
or_else-none none = refl
or_else-none (some v) = refl

ruleset send_laws = (get-set_present, get-set_chosen, get-set, get-nil, or_else-none)

-- What a log search sends under each name.
pub record SendsSearch (params : LogSearchParams) (q : Params) : Type 0 where
  pub since : get (lit "since") q ≡ some (or_default params.since (lit "1h"))
  pub limit : get (lit "limit") q ≡ some (decimal (or_default params.limit 50))
  pub offset : get (lit "offset") q ≡ some (decimal (or_default params.offset 0))
  pub query : get (lit "q") q ≡ present params.q
  pub level : get (lit "level") q ≡ chosen params.level
  pub container : get (lit "container") q ≡ chosen params.container
  pub topic : get (lit "topic") q ≡ chosen params.topic
  pub group : get (lit "group") q ≡ present params.group
  pub trace_id : get (lit "trace_id") q ≡ present params.trace_id

-- A log search sends the window, the limit and the offset always, with their defaults, and each other
-- filter exactly if it is given, not empty and (for level, container and topic) not "all".
pub search_logs_params-SendsSearch :
    (params : LogSearchParams) → SendsSearch params (search_logs_params params)
unfolding search_logs_params text_eq lit
search_logs_params-SendsSearch params = record {
  since = simp send_laws;
  limit = simp send_laws;
  offset = simp send_laws;
  query = simp send_laws;
  level = simp send_laws;
  container = simp send_laws;
  topic = simp send_laws;
  group = simp send_laws;
  trace_id = simp send_laws;
}

-- What `request` answers for each outcome of the fetch.
pub data Answers : Result Response → Result Json → Type 0 where
  no_network : {e : Text} → Answers (err e) (err e)
  refused : {res : Response} → res.is_ok ≡ false → Answers (ok res) (err (status_line res))
  answered : {res : Response} → res.is_ok ≡ true → Answers (ok res) res.json

request_ok : (res : Response) → res.is_ok ≡ true → request (ok res) ≡ res.json
unfolding request
request_ok res e = ground arith

request_refused : (res : Response) → res.is_ok ≡ false → request (ok res) ≡ err (status_line res)
unfolding request
request_refused res e = ground arith

request-Answers : (fetched : Result Response) → Answers fetched (request fetched)
unfolding request
request-Answers (err e) = no_network
request-Answers (ok res) = elim (Bool-cases res.is_ok) [
  | inl e ↦ subst (Answers (ok res)) (sym (request_ok res e)) (answered e)
  | inr e ↦ subst (Answers (ok res)) (sym (request_refused res e)) (refused e)
]

request_lem : (p : Platform) (path : Text) → Answers (p.fetch (get_call p path)) (get_json p path)
unfolding get_json
request_lem p path = request-Answers (p.fetch (get_call p path))

map_result-eq-err {ℓ κ} :
    {A : Type ℓ} {B : Type κ} (f : A → B) (r : Result A) (e : Text)
    → (map_result f r ≡ err e) ↔ (r ≡ err e)
map_result-eq-err f (ok a) e = (λ h. cc, λ h. cc)
map_result-eq-err f (err d) e = (λ h. cc, λ h. cc)

-- A GET call of the hub fails with the network's error if the fetch fails, with the status line if the
-- hub refuses, and else gives what the body parses to; a list call is the same with a body that is no
-- array read as the empty list, so a malformed body of a list is never an error.
pub get_json-Answers :
    (p : Platform) (path : Text) (since : Option Text)
    → Answers (p.fetch (get_call p path)) (get_json p path)
      × ((e : Text)
          → (list_workloads p since ≡ err e) ↔ (
              get_json p (with_since p (lit "/api/v1/workloads") (or_default since (lit "30m")))
              ≡ err e))
unfolding list_workloads
get_json-Answers p path since = (request_lem p path, λ e. map_result-eq-err as_array _ e)
