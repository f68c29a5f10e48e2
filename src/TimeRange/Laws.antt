-- ===== src/TimeRange/Laws.antt =====
-- A custom range in the URL is read back as it was written, and is at most a day.
use argus_observability.Prelude.{
  ℕ, ◌+◌, ◌-◌, ◌==◌, ◌≤◌, ◌<◌, Bool, true, false, ◌&&◌, ◌||◌, none, some, [], ◌∷◌, ◌++◌, leb, ltb,
  ◌≡◌, ◌≢◌, refl, arith, All, All-append, Bool-cases, inl, inr, Option-cases,
}
use argus_observability.Prelude.Text.{Text, lit, is_empty, includes}
use argus_observability.Topology.Address.{is_digit}
use argus_observability.TimeRange.{
  Clock, dot, max_ms, is_custom_range, cut_dots, split_range, is_millis, drop_millis, to_rfc3339,
  range_between, range_from_local,
}

abbrev pub NoDot : Text → Type 0
NoDot = All (λ c. c ≢ dot)

-- What `toISOString` returns: a text without a dot, then a dot, three digits and a Z.
pub record IsIso (text : Text) : Type 0 where
  pub body : Text
  pub a : ℕ
  pub b : ℕ
  pub c : ℕ
  pub is_whole : text ≡ body ++ (dot ∷ a ∷ b ∷ c ∷ b'Z' ∷ [])
  pub no_dot : NoDot body
  pub are_digits : (is_digit a && (is_digit b && is_digit c)) ≡ true

not_dot : (x : ℕ) → x ≢ dot → (x == dot) ≡ false
not_dot x h = ground arith

not_millis : (x : ℕ) (rest : Text) → x ≢ dot → is_millis (x ∷ rest) ≡ false
unfolding is_millis
not_millis x [] h = refl
not_millis x (p ∷ []) h = refl
not_millis x (p ∷ q ∷ []) h = refl
not_millis x (p ∷ q ∷ r ∷ []) h = refl
not_millis x (p ∷ q ∷ r ∷ s ∷ []) h = rw (not_dot x h) refl
not_millis x (p ∷ q ∷ r ∷ s ∷ t ∷ rest) h = refl

drop_millis-append :
    (body rest : Text) → NoDot body → drop_millis (body ++ rest) ≡ body ++ drop_millis rest
unfolding drop_millis
drop_millis-append [] rest h = refl
drop_millis-append (x ∷ body) rest (p, h) =
    rw (not_millis x (body ++ rest) p, drop_millis-append body rest h) refl

cut_dots-append : (a b : Text) → NoDot a → cut_dots (a ++ (dot ∷ dot ∷ b)) ≡ some (a, b)
unfolding cut_dots
cut_dots-append [] b h = refl
cut_dots-append (x ∷ []) b (p, h) = rw (not_dot x p) refl
cut_dots-append (x ∷ y ∷ a) b (p, h) = rw (not_dot x p, cut_dots-append (y ∷ a) b h) refl

drop_millis-millis :
    (a b c : ℕ)
    → (is_digit a && (is_digit b && is_digit c)) ≡ true
    → drop_millis (dot ∷ a ∷ b ∷ c ∷ b'Z' ∷ []) ≡ b'Z' ∷ []
unfolding drop_millis is_millis lit is_digit
drop_millis-millis a b c h = ground arith

whole-drop_millis : (text : Text) (iso : IsIso text) → drop_millis text ≡ iso.body ++ (b'Z' ∷ [])
whole-drop_millis text iso =
    rw
      (
        iso.is_whole,
        drop_millis-append iso.body (dot ∷ iso.a ∷ iso.b ∷ iso.c ∷ b'Z' ∷ []) iso.no_dot,
        drop_millis-millis iso.a iso.b iso.c iso.are_digits,
      )
      refl

is_empty-append : (a b : Text) → is_empty b ≡ false → is_empty (a ++ b) ≡ false
is_empty-append [] b h = h
is_empty-append (x ∷ a) b h = refl

-- A time without milliseconds has no dot and is not empty.
drop_millis-IsTime :
    (text : Text) → IsIso text → NoDot (drop_millis text) × (is_empty (drop_millis text) ≡ false)
drop_millis-IsTime text iso = rw (whole-drop_millis text iso) (
  All-append (λ c. c ≢ dot) iso.body (b'Z' ∷ []) iso.no_dot ((λ e. omega arith), tt),
  is_empty-append iso.body _ refl,
)

-- Two times with two dots between them are read back.
split_range-append :
    (a b : Text)
    → NoDot a
    → is_empty a ≡ false
    → is_empty b ≡ false
    → split_range (a ++ (lit ".." ++ b)) ≡ some (record { start = a; end = b })
unfolding split_range lit
split_range-append a b h p q = rw (cut_dots-append a b h, split_range) (rw (p, q) refl)

or_true_right : (p : Bool) → (p || true) ≡ true
or_true_right true = refl
or_true_right false = refl

includes_dots : (a b : Text) → includes (a ++ (dot ∷ dot ∷ b)) (dot ∷ dot ∷ []) ≡ true
unfolding includes
includes_dots [] b = refl
includes_dots (x ∷ a) b = rw (includes_dots a b) (or_true_right _)

between :
    (clock : Clock) (start end : ℕ)
    → start < end
    → end ≤ start + max_ms
    → range_between clock start end
      ≡ some (to_rfc3339 clock start ++ (lit ".." ++ to_rfc3339 clock end))
unfolding range_between
between clock start end lt le =
    let a : leb end start ≡ false = ground arith in
    let b : ltb max_ms (end - start) ≡ false = ground arith in rw (a, b) refl

between_bounds :
    (clock : Clock) (start end : ℕ) (value : Text)
    → range_between clock start end ≡ some value
    → (start < end) × (end ≤ start + max_ms)
unfolding range_between
between_bounds clock start end value h = elim (Bool-cases (leb end start)) [
  | inl e ↦ let n : none ≡ some value = rw e at h in cc
  | inr e ↦ elim (Bool-cases (ltb max_ms (end - start))) [
    | inl f ↦ let n : none ≡ some value = rw (e, f) at h in cc
    | inr f ↦ (ground arith, ground arith)
  ]
]

module _ (clock : Clock) (law : (time : ℕ) → IsIso (clock.to_iso time)) where
  made :
      (start_local end_local : Text) (start end : ℕ)
      → clock.parse start_local ≡ some start
      → clock.parse end_local ≡ some end
      → start < end
      → end ≤ start + max_ms
      → range_from_local clock start_local end_local
        ≡ some (to_rfc3339 clock start ++ (lit ".." ++ to_rfc3339 clock end))
  unfolding range_from_local
  made sl el start end p q lt le = rw (p, q, range_from_local) (between clock start end lt le)

  -- Two local times that the clock knows make a range in the URL if the first is before the second by at most
  -- a day; the range is custom and is read back as the two times.
  pub range_from_local-split :
      (start_local end_local : Text) (start end : ℕ)
      → clock.parse start_local ≡ some start
      → clock.parse end_local ≡ some end
      → start < end
      → end ≤ start + max_ms
      → (value : Text) × (range_from_local clock start_local end_local ≡ some value)
        × (is_custom_range value ≡ true)
        × (split_range value
            ≡ some (record { start = to_rfc3339 clock start; end = to_rfc3339 clock end }))
  unfolding is_custom_range lit to_rfc3339
  range_from_local-split sl el start end p q lt le =
      let (dots, full) = drop_millis-IsTime _ (law start) in
      let (dots', full') = drop_millis-IsTime _ (law end) in
      (
        to_rfc3339 clock start ++ (lit ".." ++ to_rfc3339 clock end),
        made sl el start end p q lt le,
        includes_dots (to_rfc3339 clock start) (to_rfc3339 clock end),
        split_range-append (to_rfc3339 clock start) (to_rfc3339 clock end) dots full full',
      )

-- A range is made only of two local times that the clock knows, the first before the second by at most a day.
pub range_from_local-some :
    (clock : Clock) (start_local end_local value : Text)
    → range_from_local clock start_local end_local ≡ some value
    → (start : ℕ) × (end : ℕ) × (clock.parse start_local ≡ some start)
      × (clock.parse end_local ≡ some end)
      × (start < end)
      × (end ≤ start + max_ms)
unfolding range_from_local
range_from_local-some clock sl el value h = elim (Option-cases (clock.parse sl)) [
  | inl e ↦ let n : none ≡ some value = rw (e, range_from_local) at h in cc
  | inr (start, p) ↦ elim (Option-cases (clock.parse el)) [
    | inl e ↦ let n : none ≡ some value = rw (p, e, range_from_local) at h in cc
    | inr (end, q) ↦
        let (lt, le) = between_bounds clock start end value (rw (p, q, range_from_local) at h) in
        (start, end, p, q, lt, le)
  ]
]
