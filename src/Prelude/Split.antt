-- ===== src/Prelude/Split.antt =====
-- Cutting a text at a separator, and joining the parts.
use Prim.Native.Nat.{ℕ}
use mathlib.Core.Path.{◌≡◌, refl}
use mathlib.Core.Bool.{false}
use mathlib.Core.Logic.{inl, inr}
use mathlib.Core.List.{List, [], ◌∷◌, ◌++◌}
use native.Mathlib.Omega.{arith}
use argus_observability.Prelude.Tests.{◌==◌, Bool-cases}
use argus_observability.Prelude.Lists.{All}
use argus_observability.Prelude.Text.{Text, join, split_at, split}

-- The unit does not occur in the text.
abbrev pub Lacks : ℕ → Text → Type 0
Lacks c s = All (λ x. (x == c) ≡ false) s

split_at-Lacks : (c : ℕ) (s : Text) → Lacks c s → split_at c s ≡ (s, [])
unfolding split_at
split_at-Lacks c [] h = refl
split_at-Lacks c (x ∷ s) (e, h) = rw (e, split_at-Lacks c s h) refl

split_at-append :
    (c : ℕ) (s rest : Text) → Lacks c s → split_at c (s ++ (c ∷ rest)) ≡ (s, split c rest)
unfolding split_at split
split_at-append c [] rest h = ground arith
split_at-append c (x ∷ s) rest (e, h) = rw (e, split_at-append c s rest h) refl

-- Parts without the separator are the parts of their join.
pub split-join :
    (c : ℕ) (a : Text) (parts : List Text)
    → All (Lacks c) (a ∷ parts)
    → split c (join (c ∷ []) (a ∷ parts)) ≡ a ∷ parts
unfolding split join
split-join c a [] (p, h) = rw (split_at-Lacks c a p) refl
split-join c a (b ∷ parts) (p, h) =
    rw (split_at-append c a (join (c ∷ []) (b ∷ parts)) p, split-join c b parts h) refl

split_at-parts : (c : ℕ) (s : Text) → Lacks c (split_at c s).0 × All (Lacks c) (split_at c s).1
unfolding split_at
split_at-parts c [] = (tt, tt)
split_at-parts c (x ∷ s) = elim (Bool-cases (x == c)) [
  | inl e ↦ rw e (tt, split_at-parts c s)
  | inr e ↦ rw e ((e, (split_at-parts c s).0), (split_at-parts c s).1)
]

-- No part has the separator.
pub split-Lacks : (c : ℕ) (s : Text) → All (Lacks c) (split c s)
unfolding split
split-Lacks c s = split_at-parts c s
