-- ===== src/Metrics/Compare/Laws.antt =====
-- The choice of containers through the URL, and the saved views.
use argus_observability.Prelude.{
  false, not, ◌&&◌, ◌||◌, some, List, [], ◌∷◌, ◌++◌, ◌≡◌, ◌≢◌, refl, arith, filter, All, All-imp,
  All-filter, All-filter_test, All-append, filter-All, All-both, Bool-cases, inl, inr,
  if◌then◌else◌, not-eq_true, ap,
}
use argus_observability.Prelude.Text.{
  Text, lit, text_eq, text_eq_iff, text_eq_refl, is_empty, split, split_at, join, has_text,
}
use argus_observability.Prelude.Split.{Lacks, split-join, split-Lacks}
use argus_observability.Query.{Params, get, patch, query_value}
use argus_observability.Query.Laws.{get-patch, read_written}
use argus_observability.Metrics.Compare.{choice_of, selected_of, toggled, toggle_container}

-- A name that the parameter can hold.
abbrev pub IsName : Text → Type 0
IsName name = (is_empty name ≡ false) × Lacks b',' name

selected_of_nil : selected_of [] ≡ []
unfolding selected_of split split_at filter
selected_of_nil = refl

names_of_nil : join (lit ",") [] ≡ []
unfolding join
names_of_nil = refl

pub selected_of-join :
    (names : List Text) → All IsName names → selected_of (join (lit ",") names) ≡ names
unfolding selected_of lit
selected_of-join [] h = rw names_of_nil selected_of_nil
selected_of-join (a ∷ names) h =
    rw (split-join b',' a names (All-imp (λ x k. k.1) (a ∷ names) h))
      (filter-All _ (a ∷ names) (All-imp (λ x k. ap not k.0) (a ∷ names) h))

pub selected_of-IsName : (param : Text) → All IsName (selected_of param)
unfolding selected_of
selected_of-IsName param =
    All-both _ _ (filter (λ name. not (is_empty name)) (split b',' param))
      (All-imp (λ x h. not-eq_true _ h) _ (All-filter_test _ (split b',' param)))
      (All-filter _ _ (split b',' param) (split-Lacks b',' param))

has_text-append :
    (xs ys : List Text) (s : Text) → has_text (xs ++ ys) s ≡ (has_text xs s || has_text ys s)
unfolding has_text
has_text-append [] ys s = refl
has_text-append (x ∷ xs) ys s = ground (arith, has_text-append xs ys s)

has_text-filter :
    (name s : Text) (xs : List Text)
    → has_text (filter (λ c. not (text_eq c name)) xs) s ≡ (has_text xs s && not (text_eq name s))
unfolding has_text filter
has_text-filter name s [] = refl
has_text-filter name s (x ∷ xs) =
    ground
      (arith, has_text-filter name s xs, text_eq_iff x s, text_eq_iff x name, text_eq_iff name s)

has_text-toggled :
    (name other : Text) (selected : List Text)
    → has_text (toggled name selected) other
      ≡ (if text_eq name other then not (has_text selected name) else has_text selected other)
unfolding toggled has_text
has_text-toggled name other selected = elim (Bool-cases (has_text selected name)) [
  | inl e ↦ rw (e, has_text-filter name other selected) (ground arith)
  | inr e ↦ rw (e, has_text-append selected (name ∷ []) other) (ground arith)
]

IsName-toggled :
    (name : Text) (selected : List Text)
    → IsName name
    → All IsName selected
    → All IsName (toggled name selected)
unfolding toggled
IsName-toggled name selected n h = elim (Bool-cases (has_text selected name)) [
  | inl e ↦ rw e (All-filter IsName _ selected h)
  | inr e ↦ rw e (All-append IsName selected (name ∷ []) h (n, tt))
]

-- What the view reads after the parameter of the containers is written.
query_value-patch :
    (key v : Text) (url : Params) → query_value key [] (patch ((key, some v) ∷ []) [] url) ≡ v
unfolding query_value
query_value-patch key v url =
    rw (get-patch key ((key, some v) ∷ []) [] url, text_eq_refl key, read_written key v [])
      (ground arith)

-- The selection after a click on a container whose name is not empty and has no comma: that container is selected exactly if it was
-- not, each other container exactly if it was, and nothing else of the URL changes.
pub toggle_container_lem :
    (name other key : Text) (url : Params)
    → IsName name
    → key ≢ lit "containers"
    → (has_text (choice_of (toggle_container name url)).selected other ≡ (
        if text_eq name other
        then not (has_text (choice_of url).selected name)
        else has_text (choice_of url).selected other))
      × (get key (toggle_container name url) ≡ get key url)
unfolding toggle_container choice_of
toggle_container_lem name other key url n k =
    let selected = (choice_of url).selected in
    (
      rw
          (
            query_value-patch (lit "containers") (join (lit ",") (toggled name selected)) url,
            selected_of-join (toggled name selected)
                (IsName-toggled name selected n (selected_of-IsName _)),
          )
          (has_text-toggled name other selected),
      rw
          (get-patch key ((lit "containers", some (join (lit ",") (toggled name selected))) ∷ []) []
            url)
          (ground (arith, text_eq_iff (lit "containers") key)),
    )
