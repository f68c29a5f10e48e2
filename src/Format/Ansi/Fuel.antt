-- ===== src/Format/Ansi/Fuel.antt =====
-- The rounds of the replacement are enough.
use argus_observability.Prelude.{
  ℕ, zero, suc, ◌≤◌, ◌<◌, Bool, ◌&&◌, ◌==◌, some, [], ◌∷◌, length, ◌≡◌, refl, ap, sym, arith,
  Bool-cases, Option-cases, inl, inr,
}
use argus_observability.Prelude.Text.{Text}
use argus_observability.Format.Ansi.{
  escape, is_parameter, is_intermediate, is_final, skip, after_final, after_match, replace_from,
}
use argus_observability.Format.Ansi.Laws.{replace_from-none, replace_from-some}

length-skip : (class : ℕ → Bool) (s : Text) → length (skip class s) ≤ length s
unfolding skip
length-skip class [] = omega arith
length-skip class (c ∷ s) = elim (Bool-cases (class c)) [
  | inl e ↦ rw e (omega (arith, length-skip class s))
  | inr e ↦ rw e (omega arith)
]

length-after_final : (s rest : Text) → after_final s ≡ some rest → length rest < length s
unfolding after_final
length-after_final [] rest h = absurd cc
length-after_final (c ∷ s) rest h = elim (Bool-cases (is_final c)) [
  | inl e ↦ let k = rw e at h in let same : s ≡ rest = cc in rw (sym same) (omega arith)
  | inr e ↦ let k = rw e at h in absurd cc
]

length-after_match : (s rest : Text) → after_match s ≡ some rest → length rest < length s
unfolding after_match
length-after_match [] rest h = absurd cc
length-after_match (e ∷ []) rest h = absurd cc
length-after_match (e ∷ b ∷ s) rest h = elim (Bool-cases (e == escape && b == b'[')) [
  | inl f ↦
      let k = rw f at h in
      let less = length-after_final (skip is_intermediate (skip is_parameter s)) rest k in
      omega (arith, length-skip is_intermediate (skip is_parameter s), length-skip is_parameter s)
  | inr f ↦ let k = rw f at h in absurd cc
]

-- The replacement comes to its end: every number of rounds that is at least the length of the text gives the same
-- result, which is not longer than the text.
pub replace_from-enough :
    (m n : ℕ) (text : Text)
    → length text ≤ m
    → length text ≤ n
    → (replace_from m text ≡ replace_from n text) × (length (replace_from m text) ≤ length text)
unfolding replace_from
replace_from-enough zero zero [] h k = (refl, omega arith)
replace_from-enough zero (suc n) [] h k = (refl, omega arith)
replace_from-enough (suc m) zero [] h k = (refl, omega arith)
replace_from-enough (suc m) (suc n) [] h k = (refl, omega arith)
replace_from-enough zero n (c ∷ text) h k = absurd (omega arith)
replace_from-enough (suc m) zero (c ∷ text) h k = absurd (omega arith)
replace_from-enough (suc m) (suc n) (c ∷ text) h k = elim (Option-cases (after_match (c ∷ text))) [
  | inl e ↦
      let (same, small) = replace_from-enough m n text (omega arith) (omega arith) in
      rw (replace_from-none m c text e, replace_from-none n c text e) (ap (◌∷◌ c) same, omega arith)
  | inr (rest, e) ↦
      let less = length-after_match (c ∷ text) rest e in
      let (same, small) = replace_from-enough m n rest (omega arith) (omega arith) in
      rw (replace_from-some m c text rest e, replace_from-some n c text rest e) (same, omega arith)
]
