-- ===== src/Language/Tests.antt =====
-- A visit in Portuguese.
use argus_observability.Prelude.{true, none, some, [], ◌∷◌, ◌≡◌, if◌then◌else◌, refl}
use argus_observability.Prelude.Text.{lit, starts_with, to_lower_case, lower_unit}
use argus_observability.Language.{pt_br, tag_of, preferred, read_stored_locale, language_changed}
use argus_observability.Language.Laws.{shown_in, read_stored_locale-language_changed}

preferred_run : read_stored_locale none (lit "fr" ∷ lit "PT-pt" ∷ lit "en" ∷ []) ≡ pt_br
unfolding read_stored_locale preferred starts_with to_lower_case lower_unit lit
preferred_run = refl

read_stored_locale-language_changed_example :
    (read_stored_locale (language_changed true (lit "de") (some (lit "pt-BR"))).0 (lit "pt" ∷ [])
      ≡ (if true
          then shown_in (lit "de")
          else read_stored_locale (some (lit "pt-BR")) (lit "pt" ∷ [])))
    × ((language_changed true (lit "de") (some (lit "pt-BR"))).1 ≡ tag_of (shown_in (lit "de")))
read_stored_locale-language_changed_example =
    read_stored_locale-language_changed true (lit "de") (some (lit "pt-BR")) (lit "pt" ∷ [])
