-- ===== src/Format/Ansi.antt =====
-- web/src/lib/format.ts: `stripAnsi`. The expression is an escape, a bracket, digits, `;` and `?`, then units from the
-- space to the slash, then one from `@` to `~`. The three classes are apart, so the match is read from left to right.
pub mod Laws
pub mod Fuel
use argus_observability.Prelude.{
  ℕ, zero, suc, Bool, true, false, ◌&&◌, ◌||◌, ◌==◌, Option, none, some, List, [], ◌∷◌,
  if◌then◌else◌, leb, length,
}
use argus_observability.Prelude.Text.{Text}

abbrev pub escape : ℕ
escape = 27

-- `[0-9;?]`, `[ -/]` and `[@-~]`.
unfoldable pub is_parameter : ℕ → Bool
is_parameter c = (leb b'0' c && leb c b'9') || c == b';' || c == b'?'

unfoldable pub is_intermediate : ℕ → Bool
is_intermediate c = leb b' ' c && leb c b'/'

unfoldable pub is_final : ℕ → Bool
is_final c = leb b'@' c && leb c b'~'

-- The text behind the longest run of units of a class.
unfoldable pub skip : (ℕ → Bool) → Text → Text
skip class [] = []
skip class (c ∷ text) = let rest = skip class text in if class c then rest else c ∷ text

unfoldable pub after_final : Text → Option Text
after_final [] = none
after_final (c ∷ text) = if is_final c then some text else none

-- The text behind a match of the expression at the start.
unfoldable pub after_match : Text → Option Text
unfolding skip after_final
after_match (e ∷ b ∷ text) =
    if e == escape && b == b'['
    then after_final (skip is_intermediate (skip is_parameter text))
    else none
after_match text = none

-- `replace` of all matches; each round takes a unit, so as many rounds as units are enough.
unfoldable pub replace_from : ℕ → Text → Text
replace_from zero text = text
replace_from (suc fuel) [] = []
replace_from (suc fuel) (c ∷ text) =
    let kept = replace_from fuel text in
    elim (after_match (c ∷ text)) [ none ↦ c ∷ kept | some rest ↦ replace_from fuel rest ]

unfoldable pub has_escape : Text → Bool
has_escape [] = false
has_escape (c ∷ text) = c == escape || has_escape text

unfoldable pub strip_ansi : Text → Text
strip_ansi text = if has_escape text then replace_from (length text) text else text
