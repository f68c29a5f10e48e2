-- ===== src/Format/Ansi/Laws.antt =====
-- What `stripAnsi` takes away.
use argus_observability.Prelude.{
  ℕ, zero, suc, ◌≤◌, Bool, true, false, ◌||◌, ◌==◌, ◌≢◌, none, some, List, [], ◌∷◌, ◌++◌, length,
  length-append, ◌≡◌, refl, arith, All, Bool-cases, inl, inr,
}
use argus_observability.Prelude.Text.{Text}
use argus_observability.Format.Ansi.{
  escape, is_parameter, is_intermediate, is_final, skip, after_final, after_match, replace_from,
  has_escape, strip_ansi,
}

-- A line of a log: plain units, and sequences that set the terminal.
pub data Piece : Type 0 where
  plain : ℕ → Piece
  sequence : Text → Text → ℕ → Piece

abbrev pub IsPiece : Piece → Type 0
IsPiece (plain c) = c ≢ escape
IsPiece (sequence params mids last) =
    All (λ c. is_parameter c ≡ true) params
    × All (λ c. is_intermediate c ≡ true) mids
    × (is_final last ≡ true)

-- The line as it is written, and the part of it that is to be read.
abbrev pub written : List Piece → Text
written [] = []
written (plain c ∷ pieces) = c ∷ written pieces
written (sequence params mids last ∷ pieces) =
    escape ∷ b'[' ∷ (params ++ (mids ++ (last ∷ written pieces)))

abbrev pub readable : List Piece → Text
readable [] = []
readable (plain c ∷ pieces) = c ∷ readable pieces
readable (sequence params mids last ∷ pieces) = readable pieces

skip-run :
    (class : ℕ → Bool) (xs : Text) (y : ℕ) (ys : Text)
    → All (λ c. class c ≡ true) xs
    → class y ≡ false
    → skip class (xs ++ (y ∷ ys)) ≡ y ∷ ys
unfolding skip
skip-run class [] y ys h e = rw e refl
skip-run class (x ∷ xs) y ys (p, h) e = rw (p, skip-run class xs y ys h e) refl

final_apart : (c : ℕ) → is_final c ≡ true → (is_parameter c ≡ false) × (is_intermediate c ≡ false)
unfolding is_final is_parameter is_intermediate
final_apart c h = (ground arith, ground arith)

intermediate_apart : (c : ℕ) → is_intermediate c ≡ true → is_parameter c ≡ false
unfolding is_parameter is_intermediate
intermediate_apart c h = ground arith

skip-parameters :
    (params mids : Text) (last : ℕ) (rest : Text)
    → All (λ c. is_parameter c ≡ true) params
    → All (λ c. is_intermediate c ≡ true) mids
    → is_final last ≡ true
    → skip is_parameter (params ++ (mids ++ (last ∷ rest))) ≡ mids ++ (last ∷ rest)
skip-parameters params [] last rest h k e =
    skip-run is_parameter params last rest h (final_apart last e).0
skip-parameters params (m ∷ mids) last rest h (q, k) e =
    skip-run is_parameter params m (mids ++ (last ∷ rest)) h (intermediate_apart m q)

after_match-sequence :
    (params mids : Text) (last : ℕ) (rest : Text)
    → All (λ c. is_parameter c ≡ true) params
    → All (λ c. is_intermediate c ≡ true) mids
    → is_final last ≡ true
    → after_match (escape ∷ b'[' ∷ (params ++ (mids ++ (last ∷ rest)))) ≡ some rest
unfolding after_match after_final
after_match-sequence params mids last rest h k e =
    rw
      (
        skip-parameters params mids last rest h k e,
        skip-run is_intermediate mids last rest k (final_apart last e).1,
        e,
      )
      refl

after_match-plain : (c : ℕ) (text : Text) → c ≢ escape → after_match (c ∷ text) ≡ none
unfolding after_match
after_match-plain c [] h = refl
after_match-plain c (b ∷ text) h = let e : (c == escape) ≡ false = ground arith in rw e refl

pub replace_from-none :
    (fuel c : ℕ) (text : Text)
    → after_match (c ∷ text) ≡ none
    → replace_from (suc fuel) (c ∷ text) ≡ c ∷ replace_from fuel text
unfolding replace_from
replace_from-none fuel c text e = rw (e, replace_from) refl

pub replace_from-some :
    (fuel c : ℕ) (text rest : Text)
    → after_match (c ∷ text) ≡ some rest
    → replace_from (suc fuel) (c ∷ text) ≡ replace_from fuel rest
unfolding replace_from
replace_from-some fuel c text rest e = rw (e, replace_from) refl

replace_from-written :
    (fuel : ℕ) (pieces : List Piece)
    → All IsPiece pieces
    → length (written pieces) ≤ fuel
    → replace_from fuel (written pieces) ≡ readable pieces
unfolding replace_from
replace_from-written zero [] h le = refl
replace_from-written (suc fuel) [] h le = refl
replace_from-written zero (plain c ∷ pieces) h le = absurd (omega arith)
replace_from-written zero (sequence params mids last ∷ pieces) h le = absurd (omega arith)
replace_from-written (suc fuel) (plain c ∷ pieces) (p, h) le =
    rw
      (
        replace_from-none fuel c (written pieces) (after_match-plain c (written pieces) p),
        replace_from-written fuel pieces h (omega arith),
      )
      refl
replace_from-written (suc fuel) (sequence params mids last ∷ pieces) ((p, q, e), h) le =
    let short : length (written pieces) ≤ fuel = omega (
      arith,
      length-append params (mids ++ (last ∷ written pieces)),
      length-append mids (last ∷ written pieces),
    ) in
    rw
      (
        replace_from-some fuel escape _ (written pieces)
            (after_match-sequence params mids last (written pieces) p q e),
        replace_from-written fuel pieces h short,
      )
      refl

no_sequence :
    (pieces : List Piece) → has_escape (written pieces) ≡ false → written pieces ≡ readable pieces
unfolding has_escape
no_sequence [] h = refl
no_sequence (plain c ∷ pieces) h = elim (Bool-cases (has_escape (written pieces))) [
  | inl e ↦ let f : ((c == escape) || true) ≡ false = rw e at h in ground arith
  | inr e ↦ rw (no_sequence pieces e) refl
]
no_sequence (sequence params mids last ∷ pieces) h = cc

-- A line of plain units and terminal sequences is shown as its plain units, in their order.
pub strip_ansi-written :
    (pieces : List Piece) → All IsPiece pieces → strip_ansi (written pieces) ≡ readable pieces
unfolding strip_ansi
strip_ansi-written pieces h = elim (Bool-cases (has_escape (written pieces))) [
  | inl e ↦ rw e (replace_from-written (length (written pieces)) pieces h (omega arith))
  | inr e ↦ rw e (no_sequence pieces e)
]
