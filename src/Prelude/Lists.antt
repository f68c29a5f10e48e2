-- ===== src/Prelude/Lists.antt =====
-- Lists measured and cut by native numbers, under the library's names, and predicates on lists by
-- recursion.
use Prim.Native.Nat.{ℕ, zero, suc, ◌+◌, ◌-◌, ◌≤◌, min}
use mathlib.Core.Path.{◌≡◌, refl, ap}
use mathlib.Core.Bool.{Bool, true, false, ◌||◌}
use mathlib.Core.Logic.{inl, inr}
use mathlib.Core.List.{List, [], ◌∷◌, ◌++◌, map}
use mathlib.Core.Option.{Option, none, some}
use native.Mathlib.Omega.{arith}
use argus_observability.Prelude.Tests.{if◌then◌else◌, Bool-cases}

-- Membership with its place.
pub data Has {ℓ} {A : Type ℓ} (a : A) : List A → Type ℓ where
  here : {x : A} {xs : List A} → a ≡ x → Has a (x ∷ xs)
  there : {x : A} {xs : List A} → Has a xs → Has a (x ∷ xs)

module _ {ℓ} {A : Type ℓ} where
  abbrev pub length : List A → ℕ
  length [] = 0
  length (x ∷ xs) = suc (length xs)

  unfoldable pub take : ℕ → List A → List A
  take zero xs = []
  take (suc n) [] = []
  take (suc n) (x ∷ xs) = x ∷ take n xs

  unfoldable pub drop : ℕ → List A → List A
  drop zero xs = xs
  drop (suc n) [] = []
  drop (suc n) (x ∷ xs) = drop n xs

  -- `xs.filter(p)`.
  unfoldable pub filter : (A → Bool) → List A → List A
  filter p [] = []
  filter p (x ∷ xs) = let rest = filter p xs in if p x then x ∷ rest else rest

  -- `xs.find(p)`.
  unfoldable pub find : (A → Bool) → List A → Option A
  find p [] = none
  find p (x ∷ xs) = if p x then some x else find p xs

  -- `xs.some(p)`.
  unfoldable pub any : (A → Bool) → List A → Bool
  any p [] = false
  any p (x ∷ xs) = p x || any p xs

  -- `xs[0]`.
  abbrev pub first : List A → Option A
  first [] = none
  first (x ∷ xs) = some x

  unfoldable pub get_elem? : List A → ℕ → Option A
  get_elem? [] i = none
  get_elem? (x ∷ xs) zero = some x
  get_elem? (x ∷ xs) (suc i) = get_elem? xs i

  abbrev pub All {κ} : (A → Type κ) → List A → Type κ
  All P [] = Unit
  All P (x ∷ xs) = P x × All P xs

  -- Every earlier element is related to every later one.
  abbrev pub Ordered {κ} : (A → A → Type κ) → List A → Type κ
  Ordered R [] = Unit
  Ordered R (x ∷ xs) = All (R x) xs × Ordered R xs

module _ {ℓ} {A : Type ℓ} where
  pub length-append : (xs ys : List A) → length (xs ++ ys) ≡ length xs + length ys
  length-append [] ys = omega arith
  length-append (x ∷ xs) ys = omega (arith, length-append xs ys)

  pub length-take : (n : ℕ) (xs : List A) → length (take n xs) ≡ min n (length xs)
  unfolding take
  length-take zero xs = omega arith
  length-take (suc n) [] = omega arith
  length-take (suc n) (x ∷ xs) = omega (arith, length-take n xs)

  pub length-drop : (n : ℕ) (xs : List A) → length (drop n xs) ≡ length xs - n
  unfolding drop
  length-drop zero xs = omega arith
  length-drop (suc n) [] = omega arith
  length-drop (suc n) (x ∷ xs) = omega (arith, length-drop n xs)

  pub take-append-drop : (n : ℕ) (xs : List A) → take n xs ++ drop n xs ≡ xs
  unfolding take drop
  take-append-drop zero xs = refl
  take-append-drop (suc n) [] = refl
  take-append-drop (suc n) (x ∷ xs) = ap (◌∷◌ x) (take-append-drop n xs)

  pub take_all : (n : ℕ) (xs : List A) → length xs ≤ n → take n xs ≡ xs
  unfolding take
  take_all zero [] h = refl
  take_all zero (x ∷ xs) h = absurd (omega arith)
  take_all (suc n) [] h = refl
  take_all (suc n) (x ∷ xs) h = ap (◌∷◌ x) (take_all n xs (omega arith))

  pub drop_all : (n : ℕ) (xs : List A) → length xs ≤ n → drop n xs ≡ []
  unfolding drop
  drop_all zero [] h = refl
  drop_all zero (x ∷ xs) h = absurd (omega arith)
  drop_all (suc n) [] h = refl
  drop_all (suc n) (x ∷ xs) h = drop_all n xs (omega arith)

module _ {ℓ κ} {A : Type ℓ} (P : A → Type κ) where
  pub All-append : (xs ys : List A) → All P xs → All P ys → All P (xs ++ ys)
  All-append [] ys h k = k
  All-append (x ∷ xs) ys (p, h) k = (p, All-append xs ys h k)

  pub All-take : (n : ℕ) (xs : List A) → All P xs → All P (take n xs)
  unfolding take
  All-take zero xs h = tt
  All-take (suc n) [] h = tt
  All-take (suc n) (x ∷ xs) (p, h) = (p, All-take n xs h)

  pub All-filter : (q : A → Bool) (xs : List A) → All P xs → All P (filter q xs)
  unfolding filter
  All-filter q [] h = tt
  All-filter q (x ∷ xs) (p, h) = elim (Bool-cases (q x)) [
    | inl e ↦ rw e (p, All-filter q xs h)
    | inr e ↦ rw e (All-filter q xs h)
  ]

  pub All-at : {a : A} {xs : List A} → Has a xs → All P xs → P a
  All-at (here e) (p, h) = rw e p
  All-at (there m) (p, h) = All-at m h

  pub All-of_forall : ((a : A) → P a) → (xs : List A) → All P xs
  All-of_forall f [] = tt
  All-of_forall f (x ∷ xs) = (f x, All-of_forall f xs)

  pub All-of_Has : (xs : List A) → ((a : A) → Has a xs → P a) → All P xs
  All-of_Has [] f = tt
  All-of_Has (x ∷ xs) f = (f x (here refl), All-of_Has xs (λ a m. f a (there m)))

module _ {ℓ} {A : Type ℓ} where
  -- What `filter` keeps passes the test.
  pub All-filter_test : (q : A → Bool) (xs : List A) → All (λ x. q x ≡ true) (filter q xs)
  unfolding filter
  All-filter_test q [] = tt
  All-filter_test q (x ∷ xs) = elim (Bool-cases (q x)) [
    | inl e ↦ rw (e, filter) (e, All-filter_test q xs)
    | inr e ↦ rw (e, filter) (All-filter_test q xs)
  ]

  pub filter-All : (q : A → Bool) (xs : List A) → All (λ x. q x ≡ true) xs → filter q xs ≡ xs
  unfolding filter
  filter-All q [] h = refl
  filter-All q (x ∷ xs) (p, h) = rw (p, filter-All q xs h) refl

  -- What is kept is what was there and passes the test.
  pub Has-filter :
      (q : A → Bool) {a : A} {xs : List A} → Has a xs → q a ≡ true → Has a (filter q xs)
  unfolding filter
  Has-filter q (here {x} {xs} e) h = let h' : q x ≡ true = rw e at h in rw (h', filter) (here e)
  Has-filter q (there {x} {xs} m) h = elim (Bool-cases (q x)) [
    | inl e ↦ rw (e, filter) (there (Has-filter q m h))
    | inr e ↦ rw (e, filter) (Has-filter q m h)
  ]

  Has-of_kept :
      (q : A → Bool) {a x : A} {xs ys : List A}
      → (Has a ys → Has a xs × (q a ≡ true))
      → q x ≡ true
      → Has a (x ∷ ys)
      → Has a (x ∷ xs) × (q a ≡ true)
  Has-of_kept q ih e (here f) = (here f, rw f e)
  Has-of_kept q ih e (there n) = let (n', h) = ih n in (there n', h)

  pub Has-of_filter :
      (q : A → Bool) (xs : List A) {a : A} → Has a (filter q xs) → Has a xs × (q a ≡ true)
  unfolding filter
  Has-of_filter q [] m = elim m [ ]
  Has-of_filter q (x ∷ xs) {a} m = elim (Bool-cases (q x)) [
    | inl e ↦ Has-of_kept q (λ n. Has-of_filter q xs {a = a} n) e (rw (e, filter) at m)
    | inr e ↦ let (n, h) = Has-of_filter q xs {a = a} (rw (e, filter) at m) in (there n, h)
  ]

  pub length-filter : (q : A → Bool) (xs : List A) → length (filter q xs) ≤ length xs
  unfolding filter
  length-filter q [] = omega arith
  length-filter q (x ∷ xs) = ground (arith, length-filter q xs)

  pub any-of_Has : (p : A → Bool) {a : A} {xs : List A} → Has a xs → p a ≡ true → any p xs ≡ true
  unfolding any
  any-of_Has p (here {x} e) h = let h' : p x ≡ true = rw e at h in rw h'
  any-of_Has p (there {x} m) h = elim (Bool-cases (p x)) [
    | inl e ↦ rw (e, any)
    | inr e ↦ rw (e, any) (any-of_Has p m h)
  ]

module _ {ℓ κ μ} {A : Type ℓ} {P : A → Type κ} {Q : A → Type μ} where
  pub All-imp : ((a : A) → P a → Q a) → (xs : List A) → All P xs → All Q xs
  All-imp f [] h = tt
  All-imp f (x ∷ xs) (p, h) = (f x p, All-imp f xs h)

module _ {ℓ κ μ} {A : Type ℓ} (P : A → Type κ) (Q : A → Type μ) where
  pub All-both : (xs : List A) → All P xs → All Q xs → All (λ x. P x × Q x) xs
  All-both [] h k = tt
  All-both (x ∷ xs) (p, h) (q, k) = ((p, q), All-both xs h k)

module _ {ℓ κ μ} {A : Type ℓ} {R : A → A → Type κ} {S : A → A → Type μ} where
  pub Ordered-imp : ((a b : A) → R a b → S a b) → (xs : List A) → Ordered R xs → Ordered S xs
  Ordered-imp f [] h = tt
  Ordered-imp f (x ∷ xs) (p, h) = (All-imp (f x) xs p, Ordered-imp f xs h)

module _ {ℓ κ μ} {A : Type ℓ} (R : A → A → Type κ) (S : A → A → Type μ) where
  pub Ordered-both : (xs : List A) → Ordered R xs → Ordered S xs → Ordered (λ a b. R a b × S a b) xs
  Ordered-both [] h k = tt
  Ordered-both (x ∷ xs) (p, h) (q, k) = (All-both (R x) (S x) xs p q, Ordered-both xs h k)

pub All-map_of_forall {ℓ κ μ} :
    {A : Type ℓ} {B : Type κ} (P : B → Type μ) (f : A → B)
    → ((a : A) → P (f a))
    → (xs : List A) → All P (map f xs)
All-map_of_forall P f h [] = tt
All-map_of_forall P f h (x ∷ xs) = (h x, All-map_of_forall P f h xs)

module _ {ℓ} {A : Type ℓ} where
  pub find-some :
      (p : A → Bool) (xs : List A) {a : A} → find p xs ≡ some a → Has a xs × (p a ≡ true)
  unfolding find
  find-some p [] h = cc
  find-some p (x ∷ xs) {a} h = elim (Bool-cases (p x)) [
    | inl e ↦ let same : a ≡ x = ground arith in (here same, rw same e)
    | inr e ↦ let (m, t) = find-some p xs {a = a} (ground arith) in (there m, t)
  ]

  pub find-none : (p : A → Bool) (xs : List A) → find p xs ≡ none → All (λ x. p x ≡ false) xs
  unfolding find
  find-none p [] h = tt
  find-none p (x ∷ xs) h = elim (Bool-cases (p x)) [
    | inl e ↦ ground arith
    | inr e ↦ (e, find-none p xs (ground arith))
  ]
