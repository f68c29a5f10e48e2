-- ===== src/Format/Tests.antt =====
-- Values, meters and lines of a terminal.
use argus_observability.Prelude.{ℕ, List, [], ◌∷◌, ◌++◌, map, ◌≡◌, refl, arith}
use argus_observability.Prelude.Text.{Text, lit}
use argus_observability.Format.{bytes_shown, whole}
use argus_observability.Format.Laws.{Fits, bytes_shown-Fits}
use argus_observability.Language.{locale_bcp47}
use argus_observability.Format.Cache.{Style, fixed_digits, hour_minute, key_of, formatters}
use argus_observability.Format.Cache.Laws.{formatters_lem}
use argus_observability.Format.Ansi.{
  strip_ansi, replace_from, after_match, skip, after_final, has_escape, is_final, is_parameter,
  is_intermediate,
}
use argus_observability.Format.Ansi.Laws.{
  Piece, plain, sequence, written, readable, strip_ansi-written,
}

kibibytes_run : (bytes_shown (whole 1536)).unit ≡ lit "KiB"
unfolding bytes_shown
kibibytes_run = refl

bytes_shown-Fits_example : (size : ℕ) × Fits (whole 1536) (bytes_shown (whole 1536)) size
bytes_shown-Fits_example = bytes_shown-Fits (whole 1536)

-- Bold on, the text `ok`, and bold off.
abbrev line : List Piece
line = sequence (b'1' ∷ []) [] b'm' ∷ plain b'o' ∷ plain b'k' ∷ sequence (b'0' ∷ []) [] b'm' ∷ []

line_run : strip_ansi (written line) ≡ b'o' ∷ b'k' ∷ []
unfolding strip_ansi replace_from after_match skip after_final has_escape is_final is_parameter
    is_intermediate
line_run = refl

strip_ansi-written_example : strip_ansi (written line) ≡ readable line
unfolding is_parameter is_final
strip_ansi-written_example = strip_ansi-written line (
  ((refl, tt), tt, refl),
  ((λ e. omega arith), ((λ e. omega arith), (((refl, tt), tt, refl), tt))),
)

-- A formatter is shown by its locale and its key.
abbrev described : Style → Text → Text
described style locale = locale ++ key_of style

-- A time in both languages, and again.
abbrev calls : List (Text × Style)
calls =
    (lit "pt-BR", hour_minute)
    ∷ (lit "en", hour_minute)
    ∷ (lit "pt-BR", hour_minute)
    ∷ (lit "en", fixed_digits 1)
    ∷ []

formatters_lem_example :
    (formatters described calls []).1
    ≡ map (λ (language, style). described style (locale_bcp47 language)) calls
formatters_lem_example = formatters_lem described calls
