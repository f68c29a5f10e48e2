-- ===== src/Prelude/Sort.antt =====
-- `Array.prototype.sort` with a comparator: a stable sort. `le a b` is "the comparator of a and b
-- is not positive". Items that compare equal keep their order, as ECMAScript requires.
use mathlib.Core.Path.{◌≡◌, refl}
use mathlib.Core.Bool.{Bool, true, false}
use mathlib.Core.Logic.{◌⊎◌, inl, inr}
use mathlib.Core.List.{List, [], ◌∷◌, Perm}
use mathlib.Core.List.Perm
use Prim.Native.Nat.{suc}
use native.Mathlib.Omega.{arith}
use argus_observability.Prelude.Tests.{if◌then◌else◌, Bool-cases}
use argus_observability.Prelude.Lists.{length, All, All-at, All-of_Has, Ordered, Has, here, there}

-- A consistent comparator: of two items one may stand first, and the order is transitive.
pub record IsPreorder {ℓ} {A : Type ℓ} (le : A → A → Bool) : Type ℓ where
  pub total : (a b : A) → (le a b ≡ true) ⊎ (le b a ≡ true)
  pub trans : (a b c : A) → le a b ≡ true → le b c ≡ true → le a c ≡ true

module _ {ℓ} {A : Type ℓ} (le : A → A → Bool) where
  unfoldable pub insert_by : A → List A → List A
  insert_by x [] = x ∷ []
  insert_by x (y ∷ ys) = let rest = insert_by x ys in if le x y then x ∷ y ∷ ys else y ∷ rest

  unfoldable pub sort_by : List A → List A
  unfolding insert_by
  sort_by [] = []
  sort_by (x ∷ xs) = insert_by x (sort_by xs)

  abbrev pub Le : A → A → Type 0
  Le a b = le a b ≡ true

  insert_by-perm : (x : A) (ys : List A) → Perm (insert_by x ys) (x ∷ ys)
  unfolding insert_by
  insert_by-perm x [] = Perm.rfl
  insert_by-perm x (y ∷ ys) = elim (Bool-cases (le x y)) [
    | inl e ↦ rw (e, insert_by) Perm.rfl
    | inr e ↦ rw (e, insert_by) (Perm.trans (Perm.cons y (insert_by-perm x ys)) (Perm.swap x y ys))
  ]

  -- Sorting rearranges.
  pub sort_by-perm : (xs : List A) → Perm (sort_by xs) xs
  unfolding sort_by
  sort_by-perm [] = Perm.rfl
  sort_by-perm (x ∷ xs) = Perm.trans (insert_by-perm x (sort_by xs)) (Perm.cons x (sort_by-perm xs))

  length-insert_by : (x : A) (ys : List A) → length (insert_by x ys) ≡ suc (length ys)
  unfolding insert_by
  length-insert_by x [] = refl
  length-insert_by x (y ∷ ys) = ground (arith, length-insert_by x ys)

  pub length-sort_by : (xs : List A) → length (sort_by xs) ≡ length xs
  unfolding sort_by
  length-sort_by [] = refl
  length-sort_by (x ∷ xs) = omega (arith, length-insert_by x (sort_by xs), length-sort_by xs)

  All-insert_by {κ} :
      (P : A → Type κ) (x : A) (ys : List A) → P x → All P ys → All P (insert_by x ys)
  unfolding insert_by
  All-insert_by P x [] p h = (p, tt)
  All-insert_by P x (y ∷ ys) p (q, h) = elim (Bool-cases (le x y)) [
    | inl e ↦ rw (e, insert_by) (p, (q, h))
    | inr e ↦ rw (e, insert_by) (q, All-insert_by P x ys p h)
  ]

  pub All-sort_by {κ} : (P : A → Type κ) (xs : List A) → All P xs → All P (sort_by xs)
  unfolding sort_by
  All-sort_by P [] h = tt
  All-sort_by P (x ∷ xs) (p, h) = All-insert_by P x (sort_by xs) p (All-sort_by P xs h)

  Has-insert_by_self : (x : A) (ys : List A) → Has x (insert_by x ys)
  unfolding insert_by
  Has-insert_by_self x [] = here refl
  Has-insert_by_self x (y ∷ ys) = elim (Bool-cases (le x y)) [
    | inl e ↦ rw (e, insert_by) (here refl)
    | inr e ↦ rw (e, insert_by) (there (Has-insert_by_self x ys))
  ]

  Has-insert_by : (x : A) {a : A} {ys : List A} → Has a ys → Has a (insert_by x ys)
  unfolding insert_by
  Has-insert_by x (here {x = y} {xs = ys} e) = elim (Bool-cases (le x y)) [
    | inl t ↦ rw (t, insert_by) (there (here e))
    | inr t ↦ rw (t, insert_by) (here e)
  ]
  Has-insert_by x (there {x = y} {xs = ys} m) = elim (Bool-cases (le x y)) [
    | inl t ↦ rw (t, insert_by) (there (there m))
    | inr t ↦ rw (t, insert_by) (there (Has-insert_by x m))
  ]

  -- Nothing is lost.
  pub Has-sort_by : {a : A} {xs : List A} → Has a xs → Has a (sort_by xs)
  unfolding sort_by
  Has-sort_by (here {x} {xs} e) = rw e (Has-insert_by_self x (sort_by xs))
  Has-sort_by (there {x} {xs} m) = Has-insert_by x (Has-sort_by m)

  module _ (law : IsPreorder le) where
    All-Le_trans : (x y : A) (ys : List A) → le x y ≡ true → All (Le y) ys → All (Le x) ys
    All-Le_trans x y [] e h = tt
    All-Le_trans x y (z ∷ zs) e (p, h) = (law.trans x y z e p, All-Le_trans x y zs e h)

    insert_by-Ordered : (x : A) (ys : List A) → Ordered Le ys → Ordered Le (insert_by x ys)
    unfolding insert_by
    insert_by-Ordered x [] h = (tt, tt)
    insert_by-Ordered x (y ∷ ys) (p, h) = elim (Bool-cases (le x y)) [
      | inl e ↦ rw (e, insert_by) ((e, All-Le_trans x y ys e p), (p, h))
      | inr e ↦
          rw (e, insert_by)
            (All-insert_by (Le y) x ys (other e (law.total x y)) p, insert_by-Ordered x ys h)
    ]
      where
        other : le x y ≡ false → (le x y ≡ true) ⊎ (le y x ≡ true) → le y x ≡ true
        other e (inl t) = cc
        other e (inr t) = t

    -- The result ascends in the comparator's order.
    pub sort_by-Ordered : (xs : List A) → Ordered Le (sort_by xs)
    unfolding sort_by
    sort_by-Ordered [] = tt
    sort_by-Ordered (x ∷ xs) = insert_by-Ordered x (sort_by xs) (sort_by-Ordered xs)

  -- Nothing is added.
  pub Has-of_sort_by : (xs : List A) {a : A} → Has a (sort_by xs) → Has a xs
  Has-of_sort_by xs m =
      All-at (λ x. Has x xs) m (All-sort_by (λ x. Has x xs) xs (All-of_Has _ xs (λ a n. n)))

  -- Sorting keeps what holds between any two elements, in either order.
  module _ {κ} (R : A → A → Type κ) (symm : (a b : A) → R a b → R b a) where
    insert_by_symm :
        (x : A) (ys : List A) → All (R x) ys → Ordered R ys → Ordered R (insert_by x ys)
    unfolding insert_by
    insert_by_symm x [] q h = (tt, tt)
    insert_by_symm x (y ∷ ys) (q, qs) (p, h) = elim (Bool-cases (le x y)) [
      | inl e ↦ rw (e, insert_by) ((q, qs), (p, h))
      | inr e ↦
          rw (e, insert_by) (All-insert_by (R y) x ys (symm x y q) p, insert_by_symm x ys qs h)
    ]

    pub sort_by_symm : (xs : List A) → Ordered R xs → Ordered R (sort_by xs)
    unfolding sort_by
    sort_by_symm [] h = tt
    sort_by_symm (x ∷ xs) (p, h) =
        insert_by_symm x (sort_by xs) (All-sort_by (R x) xs p) (sort_by_symm xs h)
