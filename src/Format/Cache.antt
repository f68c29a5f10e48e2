-- ===== src/Format/Cache.antt =====
-- web/src/lib/format.ts: the cache of the formatters, and the numbers and times that they write. A formatter is what
-- `new Intl.NumberFormat` and `new Intl.DateTimeFormat` give, which the browser does; the cache lives as long as the
-- page, and the language may change between two calls.
pub mod Laws
use argus_observability.Prelude.{ℕ, Option, none, some, List, [], ◌∷◌, ◌++◌}
use argus_observability.Prelude.Text.{Text, lit, text_eq}
use argus_observability.Prelude.Decimal.{decimal}
use argus_observability.Prelude.Assoc.{find_key, put}
use argus_observability.Language.{locale_bcp47}

-- The formatters that the file asks for.
pub data Style : Type 0 where
  fixed_digits : ℕ → Style
  hour_minute hour_minute_second date_time : Style

-- The key of a call of `cached`.
unfoldable pub key_of : Style → Text
key_of (fixed_digits digits) = b'n' ∷ decimal digits
key_of hour_minute = lit "hm"
key_of hour_minute_second = lit "hms"
key_of date_time = lit "dt"

-- `${locale}|${key}`.
unfoldable pub cache_id : Text → Text → Text
cache_id locale key = locale ++ (b'|' ∷ key)

module _ {F : Type 0} where
  -- `cached(key, make)` under the language: the cache afterwards and the formatter.
  unfoldable pub cached : Text → Text → (Text → F) → List (Text × F) → List (Text × F) × F
  cached language key make cache =
      let locale = locale_bcp47 language in
      let id = cache_id locale key in
      elim (find_key text_eq id cache) [
        | none ↦ (put text_eq id (make locale) cache, make locale)
        | some f ↦ (cache, f)
      ]

  module _ (make : Style → Text → F) where
    -- The formatter of a style.
    unfoldable pub formatter : Text → Style → List (Text × F) → List (Text × F) × F
    formatter language style cache = cached language (key_of style) (make style) cache

    -- Calls one after the other, each under the language of its time; their formatters.
    unfoldable pub formatters : List (Text × Style) → List (Text × F) → List (Text × F) × List F
    formatters [] cache = (cache, [])
    formatters ((language, style) ∷ calls) cache =
        let called = formatter language style cache in
        let rest = formatters calls called.0 in (rest.0, called.1 ∷ rest.1)
