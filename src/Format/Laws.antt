-- ===== src/Format/Laws.antt =====
-- A shown size is the value itself in a unit that fits it.
use argus_observability.Prelude.{
  ℕ, ◌*◌, Bool, ◌≤◌, ◌<◌, true, false, ◌≡◌, ◌⊎◌, inl, inr, refl, arith, ltb, Bool-cases,
}
use native.Mathlib.Nat.{mul-le-mul_right}
use argus_observability.Prelude.Text.{Text, lit}
use argus_observability.Stats.{Fraction}
use argus_observability.Format.{Shown, bytes_shown, below, meter_tone, capped, metric_meter}

-- A unit's size in bytes, the digits of its numbers, and whether they are rounded first: whole numbers of bytes, one
-- digit of kibibytes and mebibytes, and two of gibibytes.
pub data UnitOf : Text → ℕ → ℕ → Bool → Type 0 where
  bytes : UnitOf (lit "B") 1 0 true
  kibibytes : UnitOf (lit "KiB") 1024 1 false
  mebibytes : UnitOf (lit "MiB") (1024 * 1024) 1 false
  gibibytes : UnitOf (lit "GiB") (1024 * 1024 * 1024) 2 false

-- The number handed to the formatter, times the unit, is the value; it is less than 1024 unless the unit is the
-- largest, and at least 1 unless the unit is the smallest; and it is written as numbers of the unit are.
pub record Fits (value : Fraction) (s : Shown) (size : ℕ) : Type 0 where
  pub is_unit : UnitOf s.unit size s.digits s.rounds
  pub is_value : s.value.num * value.den * size ≡ value.num * s.value.den
  pub is_small : (s.value.num < 1024 * s.value.den) ⊎ (size ≡ 1024 * 1024 * 1024)
  pub is_large : (s.value.den ≤ s.value.num) ⊎ (size ≡ 1)

below_bytes : (v : Fraction) → below v 1024 ≡ true → Fits v (bytes_shown v) 1
unfolding bytes_shown
below_bytes v e = rw e (record {
  is_unit = bytes;
  is_value = omega arith;
  is_small = inl (ground arith);
  is_large = inr refl;
})

-- The number that a size is shown by is, before it is rounded to its digits, exactly the size in one of the units
-- 1, 1024, 1024 squared or 1024 cubed bytes: below 1024 unless the unit is the largest, at least 1 unless it is the smallest. It
-- is rounded to a whole number of bytes, to one digit of the next two units, and to two of the largest; so a number
-- just below 1024 may be written as 1024 of the smaller unit.
pub bytes_shown-Fits : (value : Fraction) → (size : ℕ) × Fits value (bytes_shown value) size
unfolding bytes_shown
bytes_shown-Fits value = elim (Bool-cases (below value 1024)) [
  | inl e ↦ (1, below_bytes value e)
  | inr e ↦ elim (Bool-cases (below value (1024 * 1024))) [
    | inl f ↦ (
      1024,
      rw (e, f)
          (record {
            is_unit = kibibytes;
            is_value = omega arith;
            is_small = inl (ground arith);
            is_large = inl (ground arith);
          }),
    )
    | inr f ↦ elim (Bool-cases (below value (1024 * 1024 * 1024))) [
      | inl g ↦ (
        1024 * 1024,
        rw (e, f, g)
            (record {
              is_unit = mebibytes;
              is_value = omega arith;
              is_small = inl (ground arith);
              is_large = inl (ground arith);
            }),
      )
      | inr g ↦ (
        1024 * 1024 * 1024,
        rw (e, f, g)
            (record {
              is_unit = gibibytes;
              is_value = omega arith;
              is_small = inr refl;
              is_large = inl (ground arith);
            }),
      )
    ]
  ]
]

-- A meter's bar is at most full, and its tone is that of its value: critical from `critical_at` on, else a warning
-- from `warn_at` on, as long as both stand at 100 or below.
pub metric_meter_lem :
    (value : Fraction) (warn_at critical_at : ℕ)
    → warn_at ≤ 100
    → critical_at ≤ 100
    → ((metric_meter value warn_at critical_at).width.num
        ≤ 100 * (metric_meter value warn_at critical_at).width.den)
      × ((metric_meter value warn_at critical_at).tone ≡ meter_tone value warn_at critical_at)
unfolding metric_meter capped meter_tone
metric_meter_lem value w c h k = elim (Bool-cases (below value 100)) [
  | inl e ↦ rw (e, capped) (ground arith, refl)
  | inr e ↦
      let full : below value c ≡ false = let le = mul-le-mul_right value.den k in ground arith in
      let top : ltb 100 (c * 1) ≡ false = ground arith in
      rw (e, capped) (omega arith, rw (full, top, meter_tone) refl)
]
