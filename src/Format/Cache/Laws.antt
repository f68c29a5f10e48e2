-- ===== src/Format/Cache/Laws.antt =====
-- The cache of the formatters gives what a new formatter would be.
use argus_observability.Prelude.{
  ℕ, false, some, List, [], ◌∷◌, ◌≡◌, refl, sym, ap, ap₂, ◌∙◌, arith, ◌==◌, length, Bool-cases,
  Option-cases, inl, inr, map,
}
use argus_observability.Prelude.Text.{Text, lit, text_eq, eq_of_text_eq}
use argus_observability.Prelude.Decimal.{decimal_inj}
use argus_observability.Prelude.Assoc.{find_key, put, find_key-put}
use argus_observability.Language.{locale_bcp47}
use argus_observability.Series.Laws.{text-IsKeyTest}
use argus_observability.Format.Cache.{
  Style, fixed_digits, hour_minute, hour_minute_second, date_time, key_of, cache_id, cached,
  formatter, formatters,
}

-- The first unit of a text.
first_unit : Text → ℕ
first_unit [] = 0
first_unit (c ∷ s) = c

-- Texts with different first units are different.
first_unit_apart : {A : Type 0} {s t : Text} → s ≡ t → (first_unit s == first_unit t) ≡ false → A
first_unit_apart e h = absurd (let d = ap first_unit e in ground arith)

-- Two styles of one key are one.
key_of_inj : (a b : Style) → key_of a ≡ key_of b → a ≡ b
unfolding key_of lit first_unit
key_of_inj (fixed_digits m) (fixed_digits n) h = ap fixed_digits (decimal_inj m n cc)
key_of_inj (fixed_digits m) hour_minute h = first_unit_apart h refl
key_of_inj (fixed_digits m) hour_minute_second h = first_unit_apart h refl
key_of_inj (fixed_digits m) date_time h = first_unit_apart h refl
key_of_inj hour_minute (fixed_digits n) h = first_unit_apart h refl
key_of_inj hour_minute hour_minute h = refl
key_of_inj hour_minute hour_minute_second h = absurd (let d = ap length h in omega arith)
key_of_inj hour_minute date_time h = first_unit_apart h refl
key_of_inj hour_minute_second (fixed_digits n) h = first_unit_apart h refl
key_of_inj hour_minute_second hour_minute h = absurd (let d = ap length h in omega arith)
key_of_inj hour_minute_second hour_minute_second h = refl
key_of_inj hour_minute_second date_time h = first_unit_apart h refl
key_of_inj date_time (fixed_digits n) h = first_unit_apart h refl
key_of_inj date_time hour_minute h = first_unit_apart h refl
key_of_inj date_time hour_minute_second h = first_unit_apart h refl
key_of_inj date_time date_time h = refl

-- The language and the key that an id was made of.
cache_id_inj :
    (l m j k : Text)
    → cache_id (locale_bcp47 l) j ≡ cache_id (locale_bcp47 m) k
    → (locale_bcp47 l ≡ locale_bcp47 m) × (j ≡ k)
unfolding cache_id locale_bcp47 lit first_unit
cache_id_inj l m j k h = elim (Bool-cases (text_eq l (lit "pt-BR"))) [
  | inl p ↦ elim (Bool-cases (text_eq m (lit "pt-BR"))) [
    | inl q ↦ rw (p, q) (refl, let t = rw (p, q) at h in cc)
    | inr q ↦ first_unit_apart (rw (p, q) at h) refl
  ]
  | inr p ↦ elim (Bool-cases (text_eq m (lit "pt-BR"))) [
    | inl q ↦ first_unit_apart (rw (p, q) at h) refl
    | inr q ↦ rw (p, q) (refl, let t = rw (p, q) at h in cc)
  ]
]

module _ {F : Type 0} (make : Style → Text → F) where
  -- What is cached under the id of a style and a language is the formatter of the two.
  abbrev IsFresh : List (Text × F) → Type 0
  IsFresh cache =
      (language : Text) (style : Style) (f : F)
      → find_key text_eq (cache_id (locale_bcp47 language) (key_of style)) cache ≡ some f
      → f ≡ make style (locale_bcp47 language)

  IsFresh-put :
      (language : Text) (style : Style) (cache : List (Text × F))
      → IsFresh cache
      → IsFresh (
          put text_eq
            (cache_id (locale_bcp47 language) (key_of style))
            (make style (locale_bcp47 language))
            cache)
  IsFresh-put language style cache fresh m other f h =
      let id = cache_id (locale_bcp47 language) (key_of style) in
      let new = make style (locale_bcp47 language) in
      let its : Text = cache_id (locale_bcp47 m) (key_of other) in
      let found = sym (find_key-put text_eq text-IsKeyTest its id new cache) ∙ h in
      elim (Bool-cases (text_eq id its)) [
        | inl e ↦
            let (l, k) = cache_id_inj language m _ _ (eq_of_text_eq id its e) in
            let s : style ≡ other = key_of_inj style other k in
            let v : some new ≡ some f = rw e at found in
            let n : new ≡ f = cc in sym n ∙ ap₂ make s l
        | inr e ↦ fresh m other f (rw e at found)
      ]

  formatter_lem :
      (language : Text) (style : Style) (cache : List (Text × F))
      → IsFresh cache
      → ((formatter make language style cache).1 ≡ make style (locale_bcp47 language))
        × IsFresh (formatter make language style cache).0
  unfolding formatter cached
  formatter_lem language style cache fresh =
      elim (Option-cases
        (find_key text_eq (cache_id (locale_bcp47 language) (key_of style)) cache)) [
          | inl e ↦ rw (e, formatter, cached) (refl, IsFresh-put language style cache fresh)
          | inr (f, e) ↦ rw (e, formatter, cached) (fresh language style f e, fresh)
        ]

  formatters-new :
      (calls : List (Text × Style)) (cache : List (Text × F))
      → IsFresh cache
      → (formatters make calls cache).1
        ≡ map (λ (language, style). make style (locale_bcp47 language)) calls
  unfolding formatters
  formatters-new [] cache fresh = refl
  formatters-new ((language, style) ∷ calls) cache fresh =
      let (one, next) = formatter_lem language style cache fresh in
      ap₂ (◌∷◌) one (formatters-new calls _ next)

  -- Whatever was called before, and in whatever languages, each call gives the formatter that it would make anew: of
  -- its style, and of the locale of the language of its time.
  pub formatters_lem :
      (calls : List (Text × Style))
      → (formatters make calls []).1
        ≡ map (λ (language, style). make style (locale_bcp47 language)) calls
  unfolding find_key
  formatters_lem calls = formatters-new calls [] (λ language style f h. absurd cc)
