-- ===== src/Stats/Monotone.antt =====
-- Interpolation between the ranks of an ascending list.
use argus_observability.Prelude.{
  ℕ, zero, suc, ◌+◌, ◌-◌, ◌*◌, ◌/◌, ◌%◌, ◌≤◌, ◌<◌, List, [], ◌∷◌, length, ◌≡◌, refl, arith, All,
  Ordered,
}
use argus_observability.Stats.{at, interpolate}

abbrev pub Ascending : List ℕ → Type 0
Ascending = Ordered (λ a b. a ≤ b)

-- The value at `k` and `r` twentieths.
abbrev pub between : List ℕ → ℕ → ℕ → ℕ
between xs k r = at xs k * 20 + (at xs (suc k) - at xs k) * r

ceiling : (t : ℕ) → 0 < t % 20 → (t + 19) / 20 ≡ suc (t / 20)
ceiling t h = omega arith

between_zero : (xs : List ℕ) (k m : ℕ) → at xs k * 20 + m * 0 ≡ at xs k * 20
between_zero xs k m = omega arith

pub num-eq-between :
    (q : ℕ) (xs : List ℕ)
    → let t : ℕ = q * (length xs - 1) in (interpolate q xs).num ≡ between xs (t / 20) (t % 20)
unfolding interpolate
num-eq-between q xs = go (q * (length xs - 1)) ((q * (length xs - 1)) % 20) refl
  where
    go :
        (t r : ℕ)
        → t % 20 ≡ r
        → at xs (t / 20) * 20 + (at xs ((t + 19) / 20) - at xs (t / 20)) * (t % 20)
          ≡ between xs (t / 20) (t % 20)
    go t zero e = rw e (omega arith)
    go t (suc r) e = rw (ceiling t (omega arith))

pub at-All : (P : ℕ → Type 0) (xs : List ℕ) (i : ℕ) → All P xs → i < length xs → P (at xs i)
unfolding at
at-All P [] i h lt = absurd (omega arith)
at-All P (x ∷ xs) zero (p, h) lt = p
at-All P (x ∷ xs) (suc i) (p, h) lt = at-All P xs i h (omega arith)

pub at-le-suc : (xs : List ℕ) (i : ℕ) → Ascending xs → suc i < length xs → at xs i ≤ at xs (suc i)
unfolding at
at-le-suc [] i h lt = absurd (omega arith)
at-le-suc (x ∷ xs) zero (p, h) lt = at-All (λ b. x ≤ b) xs zero p (omega arith)
at-le-suc (x ∷ xs) (suc i) (p, h) lt = at-le-suc xs i h (omega arith)

abbrev pub height : List ℕ → ℕ → ℕ
height xs t = between xs (t / 20) (t % 20)

-- One step up inside the list does not lead down.
inner_step : (a b r : ℕ) → a * 20 + (b - a) * r ≤ a * 20 + (b - a) * suc r
inner_step a b r = omega arith

last_step : (a b c : ℕ) → a ≤ b → a * 20 + (b - a) * 19 ≤ b * 20 + c * 0
last_step a b c h = omega arith

height_step :
    (xs : List ℕ) (t : ℕ)
    → Ascending xs
    → suc t ≤ 20 * (length xs - 1)
    → height xs t ≤ height xs (suc t)
height_step xs t h lt = go (t % 20) (suc t % 20) refl refl
  where
    go : (r r' : ℕ) → t % 20 ≡ r → suc t % 20 ≡ r' → height xs t ≤ height xs (suc t)
    go r zero e e' =
        let k : suc t / 20 ≡ suc (t / 20) = omega arith in
        let n : t % 20 ≡ 19 = omega arith in
        rw (e', n, k) (last_step (at xs (t / 20)) _ _ (at-le-suc xs (t / 20) h (omega arith)))
    go r (suc r') e e' =
        let k : suc t / 20 ≡ t / 20 = omega arith in
        let n : t % 20 ≡ r' = omega arith in
        rw (e', n, k) (inner_step (at xs (t / 20)) (at xs (suc (t / 20))) r')

pub height_mono :
    (xs : List ℕ) (d t : ℕ)
    → Ascending xs
    → t + d ≤ 20 * (length xs - 1)
    → height xs t ≤ height xs (t + d)
height_mono xs zero t h lt = let e : t + 0 ≡ t = omega arith in rw e (omega arith)
height_mono xs (suc d) t h lt =
    let e : t + suc d ≡ suc (t + d) = omega arith in
    let ih = height_mono xs d t h (omega arith) in
    rw e (omega (arith, height_step xs (t + d) h (omega arith)))
