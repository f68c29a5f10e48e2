-- ===== src/Query.antt =====
-- The query string as state: `URLSearchParams` of the Web platform as an ordered list of pairs,
-- web/src/hooks/use-query-state.ts and web/src/components/layout/redirect.tsx.
pub mod Laws
pub mod Redirect
mod Tests
use argus_observability.Prelude.{
  Bool, true, false, ◌||◌, Option, none, some, List, [], ◌∷◌, if◌then◌else◌, or_default,
}
use argus_observability.Prelude.Text.{Text, text_eq, is_empty}

abbrev pub Params : Type 0
Params = List (Text × Text)

-- `get`: the first value of the name.
unfoldable pub get : Text → Params → Option Text
get k [] = none
get k ((j, v) ∷ ps) = if text_eq j k then some v else get k ps

unfoldable pub has : Text → Params → Bool
has k [] = false
has k ((j, v) ∷ ps) = text_eq j k || has k ps

-- `delete`: every pair of the name.
unfoldable pub delete : Text → Params → Params
delete k [] = []
delete k ((j, v) ∷ ps) = let rest = delete k ps in if text_eq j k then rest else (j, v) ∷ rest

-- `set`: the first pair of the name takes the value and the others go; a new name is appended.
unfoldable pub set : Text → Text → Params → Params
unfolding delete
set k v [] = (k, v) ∷ []
set k v ((j, w) ∷ ps) =
    let rest = set k v ps in if text_eq j k then (j, v) ∷ delete k ps else (j, w) ∷ rest

-- A record of the source that maps names to texts, in `Object.entries` order.
unfoldable pub lookup : Text → List (Text × Text) → Option Text
lookup k [] = none
lookup k ((j, v) ∷ ps) = if text_eq j k then some v else lookup k ps

-- `value === defaults[key]`; a missing default equals no text.
unfoldable pub is_default : List (Text × Text) → Text → Text → Bool
unfolding lookup
is_default defaults key value = elim (lookup key defaults) [
  | none ↦ false
  | some d ↦ text_eq value d
]

-- One round of the loop in `useQueryPatch`; `none` is `null` or `undefined`.
unfoldable pub patch_one : List (Text × Text) → Text → Option Text → Params → Params
unfolding is_default set delete
patch_one defaults key none next = delete key next
patch_one defaults key (some value) next =
    if is_empty value || is_default defaults key value then delete key next else set key value next

unfoldable pub patch : List (Text × Option Text) → List (Text × Text) → Params → Params
unfolding patch_one
patch [] defaults next = next
patch ((key, value) ∷ rest) defaults next = patch rest defaults (patch_one defaults key value next)

-- `useQueryState`: the value shown, and the URL after the setter.
unfoldable pub query_value : Text → Text → Params → Text
query_value key fallback ps = or_default (get key ps) fallback

unfoldable pub set_query : Text → Text → Text → Params → Params
set_query key fallback next ps = patch ((key, some next) ∷ []) ((key, fallback) ∷ []) ps
