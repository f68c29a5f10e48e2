-- ===== src/Stats/Laws.antt =====
-- The statistics of a series lie between its values, and the percentiles ascend.
use argus_observability.Prelude.{
  ℕ, ◌+◌, ◌-◌, ◌*◌, ◌/◌, ◌%◌, ◌≤◌, ◌<◌, true, false, some, List, [], ◌∷◌, leb, length, ◌≡◌, refl,
  subst, arith, All, All-of_forall, Ordered-imp, ltb, Bool-cases, if◌then◌else◌, ◌⊎◌, inl, inr,
}
use argus_observability.Prelude.Sort.{
  sort_by, IsPreorder, sort_by-Ordered, length-sort_by, All-sort_by,
}
use native.Mathlib.Nat.{mul-le-mul_right}
use argus_observability.Stats.{
  StatMode, avg, p85, p90, p95, maximum, Fraction, sum, max_from, at, interpolate, ascending,
  summarize,
}
use argus_observability.Stats.Monotone.{Ascending, height_mono, num-eq-between, at-All}

leb-IsPreorder : IsPreorder leb
leb-IsPreorder = record { total = total; trans = trans }
  where
    total : (a b : ℕ) → (leb a b ≡ true) ⊎ (leb b a ≡ true)
    total a b = ground arith

    trans : (a b c : ℕ) → leb a b ≡ true → leb b c ≡ true → leb a c ≡ true
    trans a b c h k = ground arith

leb_le : (a b : ℕ) → leb a b ≡ true → a ≤ b
leb_le a b h = ground arith

ascending-Ascending : (values : List ℕ) → Ascending (ascending values)
unfolding ascending
ascending-Ascending values =
    Ordered-imp leb_le (sort_by leb values) (sort_by-Ordered leb leb-IsPreorder values)

-- `a ≤ b` for fractions.
abbrev pub AtMost : Fraction → Fraction → Type 0
AtMost a b = a.num * b.den ≤ b.num * a.den

-- Every statistic mode of a series lies between bounds of its values.
abbrev pub Between : ℕ → ℕ → Fraction → Type 0
Between lo hi f = (0 < f.den) × ((lo * f.den ≤ f.num) × (f.num ≤ hi * f.den))

sum_bounds :
    (lo hi : ℕ) (xs : List ℕ)
    → All (λ v. lo ≤ v) xs
    → All (λ v. v ≤ hi) xs
    → (lo * length xs ≤ sum xs) × (sum xs ≤ hi * length xs)
sum_bounds lo hi [] h k = (omega arith, omega arith)
sum_bounds lo hi (x ∷ xs) (p, h) (q, k) =
    let ih = sum_bounds lo hi xs h k in (omega (arith, ih.0, p), omega (arith, ih.1, q))

max_from_bounds :
    (lo hi a : ℕ) (xs : List ℕ)
    → lo ≤ a
    → a ≤ hi
    → All (λ v. v ≤ hi) xs
    → (lo ≤ max_from a xs) × (max_from a xs ≤ hi)
unfolding max_from
max_from_bounds lo hi a [] p q h = (p, q)
max_from_bounds lo hi a (b ∷ vs) p q (r, h) = elim (Bool-cases (ltb a b)) [
  | inl e ↦ rw e (max_from_bounds lo hi b vs (ground arith) r h)
  | inr e ↦ rw e (max_from_bounds lo hi a vs p q h)
]

max_from-start : (a : ℕ) (xs : List ℕ) → a ≤ max_from a xs
unfolding max_from
max_from-start a [] = omega arith
max_from-start a (b ∷ vs) = elim (Bool-cases (ltb a b)) [
  | inl e ↦ rw e (let ih = max_from-start b vs in ground (arith, ih))
  | inr e ↦ rw e (max_from-start a vs)
]

max_from-All : (a m : ℕ) (xs : List ℕ) → max_from a xs ≤ m → All (λ v. v ≤ m) xs
unfolding max_from
max_from-All a m [] h = tt
max_from-All a m (b ∷ vs) h = elim (Bool-cases (ltb a b)) [
  | inl e ↦ (omega (arith, max_from-start b vs, step e h), max_from-All b m vs (step e h))
  | inr e ↦ (ground (arith, max_from-start a vs, stay e h), max_from-All a m vs (stay e h))
]
  where
    step : ltb a b ≡ true → max_from a (b ∷ vs) ≤ m → max_from b vs ≤ m
    step e h = subst (λ c. max_from (if c then b else a) vs ≤ m) e h

    stay : ltb a b ≡ false → max_from a (b ∷ vs) ≤ m → max_from a vs ≤ m
    stay e h = subst (λ c. max_from (if c then b else a) vs ≤ m) e h

scaled_le : (q d n : ℕ) → q + d ≤ 20 → q * n + d * n ≤ 20 * n
scaled_le q d n h = omega (arith, mul-le-mul_right n h)

num_mono :
    (q d : ℕ) (xs : List ℕ)
    → Ascending xs
    → q + d ≤ 20
    → (interpolate q xs).num ≤ (interpolate (q + d) xs).num
num_mono q d xs h lt =
    let step =
      height_mono xs (d * (length xs - 1)) (q * (length xs - 1)) h
        (scaled_le q d (length xs - 1) lt) in
    let e : (q + d) * (length xs - 1) ≡ q * (length xs - 1) + d * (length xs - 1) = omega arith in
    rw (num-eq-between q xs, num-eq-between (q + d) xs, e) step

num_first : (xs : List ℕ) → (interpolate 0 xs).num ≡ at xs 0 * 20
unfolding interpolate
num_first xs = let e : 0 * (length xs - 1) ≡ 0 = omega arith in rw e (omega arith)

num_last : (xs : List ℕ) → (interpolate 20 xs).num ≡ at xs (length xs - 1) * 20
unfolding interpolate
num_last xs = go (length xs - 1)
  where
    go :
        (n : ℕ)
        → at xs (20 * n / 20) * 20
            + (at xs ((20 * n + 19) / 20) - at xs (20 * n / 20)) * (20 * n % 20)
          ≡ at xs n * 20
    go n =
        let e : 20 * n / 20 ≡ n = omega arith in
        let r : 20 * n % 20 ≡ 0 = omega arith in rw (e, r) (omega arith)

zero_le : (x : ℕ) → 0 ≤ x
zero_le x = omega arith

plain : (q : ℕ) → 0 + q ≡ q
plain q = omega arith

plain_le : (q : ℕ) → q ≤ 20 → 0 + q ≤ 20
plain_le q h = omega arith

num-lower :
    (q lo : ℕ) (xs : List ℕ)
    → 0 < length xs
    → Ascending xs
    → All (λ v. lo ≤ v) xs
    → q ≤ 20
    → lo * 20 ≤ (interpolate q xs).num
num-lower q lo xs pos asc h le =
    let head = at-All (λ v. lo ≤ v) xs 0 h pos in
    omega (
      arith,
      num_first xs,
      subst (λ k. (interpolate 0 xs).num ≤ (interpolate k xs).num) (plain q)
          (num_mono 0 q xs asc (plain_le q le)),
      head,
    )

num-upper :
    (q d hi : ℕ) (xs : List ℕ)
    → q + d ≡ 20
    → 0 < length xs
    → Ascending xs
    → All (λ v. v ≤ hi) xs
    → (interpolate q xs).num ≤ hi * 20
num-upper q d hi xs e pos asc h =
    let last = at-All (λ v. v ≤ hi) xs (length xs - 1) h (omega arith) in
    let top =
      subst (λ k. (interpolate q xs).num ≤ (interpolate k xs).num) e
        (num_mono q d xs asc (omega arith)) in
    omega (arith, num_last xs, top, last)

den-interpolate : (q : ℕ) (xs : List ℕ) → (interpolate q xs).den ≡ 20
unfolding interpolate
den-interpolate q xs = refl

-- The interpolated value of a nonempty list lies between the bounds of its values.
interpolate_bounds :
    (q d lo hi : ℕ) (xs : List ℕ)
    → q + d ≡ 20
    → 0 < length xs
    → Ascending xs
    → All (λ v. lo ≤ v) xs
    → All (λ v. v ≤ hi) xs
    → Between lo hi (interpolate q xs)
interpolate_bounds q d lo hi xs e pos asc above below = rw (den-interpolate q xs) (
  omega arith,
  (num-lower q lo xs pos asc above (omega arith), num-upper q d hi xs e pos asc below),
)

module _ (v : ℕ) (vs : List ℕ) where
  ascending_bounds :
      (q d lo hi : ℕ)
      → q + d ≡ 20
      → All (λ x. lo ≤ x) (v ∷ vs)
      → All (λ x. x ≤ hi) (v ∷ vs)
      → Between lo hi (interpolate q (ascending (v ∷ vs)))
  unfolding ascending
  ascending_bounds q d lo hi e above below =
      interpolate_bounds q d lo hi (ascending (v ∷ vs)) e
        (omega (arith, length-sort_by leb (v ∷ vs))) (ascending-Ascending (v ∷ vs))
        (All-sort_by leb (λ x. lo ≤ x) (v ∷ vs) above)
        (All-sort_by leb (λ x. x ≤ hi) (v ∷ vs) below)

-- A series that has a value has each of the five statistics, and it lies between any bounds of the values.
pub summarize-Between :
    (v : ℕ) (vs : List ℕ) (mode : StatMode) (lo hi : ℕ)
    → All (λ x. lo ≤ x) (v ∷ vs)
    → All (λ x. x ≤ hi) (v ∷ vs)
    → (f : Fraction) × (summarize (v ∷ vs) mode ≡ some f) × Between lo hi f
unfolding summarize
summarize-Between v vs avg lo hi above below =
    let b = sum_bounds lo hi (v ∷ vs) above below in (_, refl, (omega arith, b))
summarize-Between v vs p85 lo hi above below =
    (_, refl, ascending_bounds v vs 17 3 lo hi refl above below)
summarize-Between v vs p90 lo hi above below =
    (_, refl, ascending_bounds v vs 18 2 lo hi refl above below)
summarize-Between v vs p95 lo hi above below =
    (_, refl, ascending_bounds v vs 19 1 lo hi refl above below)
summarize-Between v vs maximum lo hi (p, above) (q, below) =
    let b = max_from_bounds lo hi v (v ∷ vs) p q (q, below) in
    (_, refl, (omega arith, (omega (arith, b.0), omega (arith, b.1))))

interpolate_mono :
    (q d : ℕ) (xs : List ℕ)
    → Ascending xs
    → q + d ≤ 20
    → AtMost (interpolate q xs) (interpolate (q + d) xs)
interpolate_mono q d xs asc le =
    rw (den-interpolate q xs, den-interpolate (q + d) xs)
      (mul-le-mul_right 20 (num_mono q d xs asc le))

interpolate-max :
    (q d : ℕ) (v : ℕ) (vs : List ℕ)
    → q + d ≡ 20
    → AtMost (interpolate q (ascending (v ∷ vs))) (record { num = max_from v (v ∷ vs); den = 1 })
interpolate-max q d v vs e =
    let top = max_from v (v ∷ vs) in
    let b =
      ascending_bounds v vs q d 0 top e (All-of_forall (λ x. 0 ≤ x) zero_le (v ∷ vs))
        (max_from-All v top (v ∷ vs) (omega arith)) in
    omega (arith, b.1.1)

-- A series that has a value has its percentiles and its maximum, and they ascend: the 85th percentile is at most
-- the 90th, that at most the 95th, and that at most the maximum.
pub summarize-AtMost :
    (v : ℕ) (vs : List ℕ)
    → (a : Fraction) × (b : Fraction) × (c : Fraction) × (d : Fraction) × (summarize (v ∷ vs) p85
        ≡ some a)
      × (summarize (v ∷ vs) p90 ≡ some b)
      × (summarize (v ∷ vs) p95 ≡ some c)
      × (summarize (v ∷ vs) maximum ≡ some d)
      × AtMost a b
      × AtMost b c
      × AtMost c d
unfolding summarize
summarize-AtMost v vs =
    let asc = ascending-Ascending (v ∷ vs) in
    (
      _,
      _,
      _,
      _,
      refl,
      refl,
      refl,
      refl,
      interpolate_mono 17 1 (ascending (v ∷ vs)) asc (omega arith),
      interpolate_mono 18 1 (ascending (v ∷ vs)) asc (omega arith),
      interpolate-max 19 1 v vs refl,
    )
