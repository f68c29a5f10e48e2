-- ===== src/Language.antt =====
-- web/src/i18n.ts: the language of the panel, from local storage and the browser's list, and its change.
pub mod Catalog
pub mod Laws
mod Tests
use argus_observability.Prelude.{
  Bool, true, false, ◌||◌, Option, none, some, List, [], ◌∷◌, if◌then◌else◌,
}
use argus_observability.Prelude.Text.{Text, lit, text_eq, is_empty, starts_with, to_lower_case}

pub data AppLocale : Type 0 where
  en pt_br : AppLocale

-- The text that a locale is in the source.
abbrev pub tag_of : AppLocale → Text
tag_of en = lit "en"
tag_of pt_br = lit "pt-BR"

unfoldable pub is_app_locale : Text → Option AppLocale
is_app_locale value =
    if text_eq value (lit "en")
    then some en
    else if text_eq value (lit "pt-BR")
    then some pt_br
    else none

-- The loop over `navigator.languages`.
unfoldable pub preferred : List Text → AppLocale
preferred [] = en
preferred (tag ∷ tags) =
    let rest = preferred tags in
    let lower = to_lower_case tag in
    if starts_with lower (lit "pt")
    then pt_br
    else if starts_with lower (lit "en")
    then en
    else rest

-- What local storage holds, `none` where reading it throws or the key is missing.
unfoldable pub read_stored_locale : Option Text → List Text → AppLocale
unfolding is_app_locale preferred
read_stored_locale none languages = preferred languages
read_stored_locale (some raw) languages = elim (is_app_locale raw) [
  | none ↦ preferred languages
  | some locale ↦ locale
]

unfoldable pub locale_bcp47 : Text → Text
locale_bcp47 lng = if text_eq lng (lit "pt-BR") then lit "pt-BR" else lit "en"

-- What the handler of `languageChanged` writes: the stored key and the language of the document. `writes` tells that
-- local storage takes the value.
unfoldable pub language_changed : Bool → Text → Option Text → Option Text × Text
unfolding is_app_locale locale_bcp47
language_changed writes lng store =
    let value : Text = elim (is_app_locale lng) [ none ↦ lit "en" | some locale ↦ tag_of locale ] in
    (if writes then some value else store, locale_bcp47 lng)
