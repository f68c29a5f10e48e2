-- ===== src/Query/Laws.antt =====
-- Reading the query string after it is written.
use argus_observability.Prelude.{
  ◌||◌, Option, none, some, List, [], ◌∷◌, if◌then◌else◌, ◌≡◌, ◌≢◌, refl, arith, is_some,
  or_default,
}
use argus_observability.Prelude.Text.{Text, text_eq, text_eq_iff, text_eq_refl, is_empty}
use argus_observability.Query.{
  Params, get, has, delete, set, lookup, is_default, patch_one, patch, query_value, set_query,
}

pub get-delete :
    (j k : Text) (ps : Params) → get j (delete k ps) ≡ (if text_eq k j then none else get j ps)
unfolding get delete
get-delete j k [] = ground arith
get-delete j k ((i, v) ∷ ps) =
    ground (arith, get-delete j k ps, text_eq_iff i k, text_eq_iff i j, text_eq_iff k j)

pub get-set :
    (j k v : Text) (ps : Params) → get j (set k v ps) ≡ (if text_eq k j then some v else get j ps)
unfolding get set
get-set j k v [] = refl
get-set j k v ((i, w) ∷ ps) =
    ground (
      arith,
      get-set j k v ps,
      get-delete j k ps,
      text_eq_iff i k,
      text_eq_iff i j,
      text_eq_iff k j,
    )

pub has-get : (k : Text) (ps : Params) → has k ps ≡ is_some (get k ps)
unfolding has get
has-get k [] = refl
has-get k ((j, v) ∷ ps) = ground (arith, has-get k ps)

-- What the URL holds for `key` after one entry of a patch.
abbrev pub written : List (Text × Text) → Text → Option Text → Option Text
written defaults key none = none
written defaults key (some v) = if is_empty v || is_default defaults key v then none else some v

-- The value read where a patch without defaults wrote `v`.
pub read_written :
    (key v d : Text) → or_default (written [] key (some v)) d ≡ (if is_empty v then d else v)
unfolding is_default lookup
read_written key [] d = refl
read_written key (c ∷ v) d = refl

get-patch_one :
    (j : Text) (defaults : List (Text × Text)) (key : Text) (value : Option Text) (ps : Params)
    → get j (patch_one defaults key value ps)
      ≡ (if text_eq key j then written defaults key value else get j ps)
unfolding patch_one
get-patch_one j defaults key none ps = get-delete j key ps
get-patch_one j defaults key (some v) ps = ground (arith, get-delete j key ps, get-set j key v ps)

-- The last entry of a patch for a name decides; `d` stands where the patch has none.
abbrev pub patched :
    List (Text × Text) → Text → List (Text × Option Text) → Option Text → Option Text
patched defaults j [] d = d
patched defaults j ((key, value) ∷ rest) d =
    patched defaults j rest (if text_eq key j then written defaults key value else d)

-- After a patch the URL holds, for each name of the patch, its value, and nothing if the value is
-- null, empty or the name's default; every other name keeps what it had.
pub get-patch :
    (j : Text) (entries : List (Text × Option Text)) (defaults : List (Text × Text)) (ps : Params)
    → get j (patch entries defaults ps) ≡ patched defaults j entries (get j ps)
unfolding patch
get-patch j [] defaults ps = refl
get-patch j ((key, value) ∷ rest) defaults ps = rw (
  get-patch j rest defaults (patch_one defaults key value ps),
  get-patch_one j defaults key value ps,
)

-- `useQueryState`: after the setter with `next`, the value read is `next`, or the fallback if `next` is
-- empty; every other name of the URL keeps its value.
pub query_value-set_query :
    (key fallback next j : Text) (ps : Params)
    → j ≢ key
    → (query_value key fallback (set_query key fallback next ps)
        ≡ (if is_empty next then fallback else next))
      × (get j (set_query key fallback next ps) ≡ get j ps)
unfolding query_value set_query is_default lookup
query_value-set_query key fallback next j ps h = (
  rw (get-patch key ((key, some next) ∷ []) ((key, fallback) ∷ []) ps)
      (ground (arith, text_eq_refl key, text_eq_iff next fallback)),
  rw (get-patch j ((key, some next) ∷ []) ((key, fallback) ∷ []) ps)
      (ground (arith, text_eq_iff key j)),
)
