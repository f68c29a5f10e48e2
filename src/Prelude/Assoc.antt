-- ===== src/Prelude/Assoc.antt =====
-- `Map` and plain objects as association lists in the order of insertion.
use mathlib.Core.Path.{◌≡◌, refl, sym}
use mathlib.Core.Bool.{Bool, true, false}
use mathlib.Core.Logic.{◌↔◌, inl, inr}
use mathlib.Core.List.{List, [], ◌∷◌}
use mathlib.Core.Option.{Option, none, some}
use native.Mathlib.Omega.{arith}
use argus_observability.Prelude.Tests.{if◌then◌else◌, Bool-cases, is_some}
use argus_observability.Prelude.Lists.{All, Ordered, Has, here, there}

module _ {ℓ κ} {K : Type ℓ} {V : Type κ} (same : K → K → Bool) where
  -- `map.get(k)`.
  unfoldable pub find_key : K → List (K × V) → Option V
  find_key k [] = none
  find_key k ((j, v) ∷ m) = if same j k then some v else find_key k m

  -- `map.set(k, v)`: an old key keeps its place.
  unfoldable pub put : K → V → List (K × V) → List (K × V)
  put k v [] = (k, v) ∷ []
  put k v ((j, w) ∷ m) = let rest = put k v m in if same j k then (j, v) ∷ m else (j, w) ∷ rest

-- `map.keys()`.
abbrev pub keys {ℓ κ} : {K : Type ℓ} {V : Type κ} → List (K × V) → List K
keys [] = []
keys ((k, v) ∷ m) = k ∷ keys m

-- The test decides whether two keys are one.
pub record IsKeyTest {ℓ} {K : Type ℓ} (same : K → K → Bool) : Type ℓ where
  pub test_refl : (k : K) → same k k ≡ true
  pub test_eq : (j k : K) → same j k ≡ true → j ≡ k

module _ {ℓ κ} {K : Type ℓ} {V : Type κ} (same : K → K → Bool) (law : IsKeyTest same) where
  pub find_key-put :
      (j k : K) (v : V) (m : List (K × V))
      → find_key same j (put same k v m) ≡ (if same k j then some v else find_key same j m)
  unfolding find_key put
  find_key-put j k v [] = refl
  find_key-put j k v ((i, w) ∷ m) = ground (
    arith,
    find_key-put j k v m,
    law.test_eq i k,
    law.test_eq i j,
    law.test_eq k j,
    law.test_refl k,
  )

  All-put :
      (P : K → Type 0) (k : K) (v : V) (m : List (K × V))
      → P k
      → All P (keys m)
      → All P (keys (put same k v m))
  unfolding put
  All-put P k v [] p h = (p, tt)
  All-put P k v ((i, w) ∷ m) p (q, h) = elim (Bool-cases (same i k)) [
    | inl e ↦ rw (e, put) (q, h)
    | inr e ↦ rw (e, put) (q, All-put P k v m p h)
  ]

  -- No key stands twice.
  pub Ordered-put :
      (k : K) (v : V) (m : List (K × V))
      → Ordered (λ i j. same i j ≡ false) (keys m)
      → Ordered (λ i j. same i j ≡ false) (keys (put same k v m))
  unfolding put
  Ordered-put k v [] h = (tt, tt)
  Ordered-put k v ((i, w) ∷ m) (p, h) = elim (Bool-cases (same i k)) [
    | inl e ↦ rw (e, put) (p, h)
    | inr e ↦ rw (e, put) (All-put (λ j. same i j ≡ false) k v m e p, Ordered-put k v m h)
  ]

  -- A key is among the keys exactly if it is found.
  pub find_key-Has :
      (k : K) (m : List (K × V)) → Has k (keys m) ↔ (is_some (find_key same k m) ≡ true)
  unfolding find_key
  find_key-Has k [] = (λ n. elim n [ ], λ h. cc)
  find_key-Has k ((j, v) ∷ m) = elim (Bool-cases (same j k)) [
    | inl e ↦ rw (e, find_key) (λ n. refl, λ h. here (sym (law.test_eq j k e)))
    | inr e ↦
        rw (e, find_key)
          (λ n. (find_key-Has k m).0 (not_here j k e n), λ h. there ((find_key-Has k m).1 h))
  ]
    where
      not_here : (j k : K) → same j k ≡ false → Has k (j ∷ keys m) → Has k (keys m)
      not_here j k e (here f) = absurd (let t = rw (f, law.test_refl j) at e in cc)
      not_here j k e (there n) = n
