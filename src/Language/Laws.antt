-- ===== src/Language/Laws.antt =====
-- The language that is chosen is the language that is read.
use argus_observability.Prelude.{
  Bool, true, false, Option, some, List, ◌≡◌, refl, sym, subst, ap, Bool-cases, inl, inr,
  if◌then◌else◌,
}
use argus_observability.Prelude.Text.{Text, lit, text_eq, eq_of_text_eq}
use argus_observability.Language.{
  AppLocale, en, pt_br, tag_of, is_app_locale, read_stored_locale, locale_bcp47, language_changed,
}

stored_en : (languages : List Text) → read_stored_locale (some (lit "en")) languages ≡ en
unfolding read_stored_locale is_app_locale text_eq lit
stored_en languages = refl

stored_pt_br : (languages : List Text) → read_stored_locale (some (lit "pt-BR")) languages ≡ pt_br
unfolding read_stored_locale is_app_locale text_eq lit
stored_pt_br languages = refl

-- The language of the panel for a language of i18next: Portuguese for its own tag, and else English.
abbrev pub shown_in : Text → AppLocale
shown_in lng = if text_eq lng (lit "pt-BR") then pt_br else en

en_apart : text_eq (lit "en") (lit "pt-BR") ≡ false
unfolding text_eq lit
en_apart = refl

-- What the handler writes, if storage takes the write.
store-language_changed :
    (writes : Bool) (lng : Text) (store : Option Text)
    → (language_changed writes lng store).0
      ≡ (if writes then some (tag_of (shown_in lng)) else store)
unfolding language_changed is_app_locale
store-language_changed writes lng store = elim (Bool-cases (text_eq lng (lit "en"))) [
  | inl e ↦
      let p : text_eq lng (lit "pt-BR") ≡ false =
        subst (λ l. text_eq l (lit "pt-BR") ≡ false) (sym (eq_of_text_eq lng _ e)) en_apart in
      rw (e, p) refl
  | inr e ↦ elim (Bool-cases (text_eq lng (lit "pt-BR"))) [
    | inl f ↦ rw (e, f) refl
    | inr f ↦ rw (e, f) refl
  ]
]

read-tag_of :
    (l : AppLocale) (languages : List Text) → read_stored_locale (some (tag_of l)) languages ≡ l
read-tag_of en languages = stored_en languages
read-tag_of pt_br languages = stored_pt_br languages

document-language_changed :
    (writes : Bool) (lng : Text) (store : Option Text)
    → (language_changed writes lng store).1 ≡ tag_of (shown_in lng)
unfolding language_changed locale_bcp47
document-language_changed writes lng store = elim (Bool-cases (text_eq lng (lit "pt-BR"))) [
  | inl e ↦ rw e refl
  | inr e ↦ rw e refl
]

-- After a change of language the document carries the tag of Portuguese if `pt-BR` was chosen, and that of English
-- for any other language. The next visit is in that language if storage took the write, whatever the browser
-- prefers; if it did not, the next visit is what it would have been without the change.
pub read_stored_locale-language_changed :
    (writes : Bool) (lng : Text) (store : Option Text) (languages : List Text)
    → (read_stored_locale (language_changed writes lng store).0 languages
        ≡ (if writes then shown_in lng else read_stored_locale store languages))
      × ((language_changed writes lng store).1 ≡ tag_of (shown_in lng))
read_stored_locale-language_changed true lng store languages = (
  rw (store-language_changed true lng store) (read-tag_of (shown_in lng) languages),
  document-language_changed true lng store,
)
read_stored_locale-language_changed false lng store languages = (
  ap (λ s. read_stored_locale s languages) (store-language_changed false lng store),
  document-language_changed false lng store,
)
