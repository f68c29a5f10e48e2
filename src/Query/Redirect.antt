-- ===== src/Query/Redirect.antt =====
-- `RedirectWithParams` of redirect.tsx: the old routes of App.tsx keep their query string.
use argus_observability.Prelude.{none, some, List, [], ◌∷◌, ◌++◌, if◌then◌else◌, ◌≡◌, arith}
use argus_observability.Prelude.Text.{Text, text_eq_iff, is_empty, lit}
use argus_observability.Query.{Params, get, has, set, lookup}
use argus_observability.Query.Laws.{get-set, has-get}

-- The loop over `params`: a name that the URL has is left alone.
unfoldable pub fill : List (Text × Text) → Params → Params
unfolding has set
fill [] search = search
fill ((key, value) ∷ rest) search =
    fill rest (if has key search then search else set key value search)

-- The target of the redirect; `to_string` is `URLSearchParams.toString`.
unfoldable pub redirect : (Params → Text) → Text → List (Text × Text) → Params → Text
unfolding fill
redirect to_string to params location =
    let qs = to_string (fill params location) in to ++ (if is_empty qs then [] else lit "?" ++ qs)

-- The redirect keeps every parameter of the old URL, and gives a parameter that the URL lacks the
-- first value that the route lists for it.
pub get-fill :
    (j : Text) (params : List (Text × Text)) (search : Params)
    → get j (fill params search)
      ≡ (elim (get j search) [ none ↦ lookup j params | some v ↦ some v ])
unfolding fill lookup
get-fill j [] search = ground arith
get-fill j ((key, value) ∷ rest) search =
    rw (get-fill j rest (if has key search then search else set key value search))
      (ground (arith, has-get key search, get-set j key value search, text_eq_iff key j))
