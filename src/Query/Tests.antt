-- ===== src/Query/Tests.antt =====
-- Runs of the query state, and the theorems at concrete inputs.
use argus_observability.Prelude.{Option, none, some, true, List, [], ◌∷◌, if◌then◌else◌, ◌≡◌, refl}
use argus_observability.Prelude.Text.{Text, text_eq, text_eq_iff, is_empty, lit}
use argus_observability.Query.{Params, get, patch, query_value, set_query}
use argus_observability.Query.Laws.{patched, get-patch, query_value-set_query}

abbrev url : Params
url = (lit "since", lit "6h") ∷ (lit "page", lit "3") ∷ (lit "page", lit "4") ∷ []

abbrev to_now : List (Text × Option Text)
to_now = (lit "page", none) ∷ (lit "tab", some (lit "now")) ∷ (lit "q", some (lit "oom")) ∷ []

abbrev tab_default : List (Text × Text)
tab_default = (lit "tab", lit "now") ∷ []

patch_runs :
    (patch to_now tab_default url ≡ (lit "since", lit "6h") ∷ (lit "q", lit "oom") ∷ [])
    × (query_value (lit "page") (lit "1") url ≡ lit "3")
unfolding patch query_value get text_eq lit
patch_runs = (refl, refl)

get-patch_example :
    get (lit "q") (patch to_now tab_default url)
    ≡ patched tab_default (lit "q") to_now (get (lit "q") url)
get-patch_example = get-patch (lit "q") to_now tab_default url

absurd_test : text_eq (lit "view") (lit "page") ≡ true → ⊥
unfolding text_eq lit
absurd_test t = cc

query_value-set_query_example :
    (query_value (lit "page") (lit "1") (set_query (lit "page") (lit "1") (lit "2") url)
      ≡ (if is_empty (lit "2") then lit "1" else lit "2"))
    × (get (lit "view") (set_query (lit "page") (lit "1") (lit "2") url) ≡ get (lit "view") url)
query_value-set_query_example =
    query_value-set_query (lit "page") (lit "1") (lit "2") (lit "view") url
      (λ e. let t = (text_eq_iff (lit "view") (lit "page")).1 e in absurd_test t)
