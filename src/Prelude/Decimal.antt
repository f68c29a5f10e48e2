-- ===== src/Prelude/Decimal.antt =====
-- `String(n)` of a natural number.
use argus_observability.Prelude.Text.{Text}
use Prim.Native.Nat.{ℕ, zero, suc, ◌+◌, ◌*◌, ◌-◌, ◌/◌, ◌%◌, ◌<◌}
use mathlib.Core.Path.{◌≡◌, sym, ap, ◌∙◌}
use mathlib.Core.Logic.{inl, inr}
use native.Mathlib.Omega.{arith}
use mathlib.Core.List.{[], ◌∷◌}
use argus_observability.Prelude.Tests.{ltb, if◌then◌else◌, Bool-cases}

-- The digits of `n` before `rest`; more than log10 of `n` rounds are enough, and `n` is.
digits : ℕ → ℕ → Text → Text
digits zero n rest = rest
digits (suc fuel) n rest =
    let more = digits fuel (n / 10) ((48 + n % 10) ∷ rest) in
    if ltb n 10 then (48 + n) ∷ rest else more

unfoldable pub decimal : ℕ → Text
unfolding digits
decimal n = digits (suc n) n []

-- The number that digits after `acc` write.
value_of : ℕ → Text → ℕ
value_of acc [] = acc
value_of acc (c ∷ s) = value_of (10 * acc + (c - 48)) s

value_of-digits :
    (fuel n : ℕ) (rest : Text) → n < fuel → value_of 0 (digits fuel n rest) ≡ value_of n rest
unfolding digits value_of
value_of-digits zero n rest h = omega arith
value_of-digits (suc fuel) n rest h = elim (Bool-cases (ltb n 10)) [
  | inl e ↦ rw (e, value_of) (ap (λ k. value_of k rest) (omega arith))
  | inr e ↦ rw e (
      value_of-digits fuel (n / 10) ((48 + n % 10) ∷ rest) (ground arith)
      ∙ ap (λ k. value_of k rest) (omega arith))
]

-- Two numbers that are written alike are one.
pub decimal_inj : (m n : ℕ) → decimal m ≡ decimal n → m ≡ n
unfolding decimal value_of
decimal_inj m n h =
    sym (value_of-digits (suc m) m [] (omega arith))
    ∙ (ap (λ s. value_of 0 s) h ∙ value_of-digits (suc n) n [] (omega arith))
