-- ===== src/Problems/Laws.antt =====
-- The containers that are down.
use argus_observability.Prelude.{
  ◌+◌, ◌≤◌, true, false, Option, none, some, List, [], ◌∷◌, map, filter, length, ◌≡◌, refl, arith,
  All, All-imp, All-filter_test, Bool-cases, inl, inr,
}
use argus_observability.Prelude.Text.{Text, lit, text_eq, eq_of_text_eq}
use argus_observability.Api.Types.{ContainerFleetStatus}
use argus_observability.Fleet.{destructive, outline, is_text}
use argus_observability.Problems.{is_failed, is_stopped, down_row}

All-map {ℓ κ μ} :
    {A : Type ℓ} {B : Type κ} (P : B → Type μ) (f : A → B) (xs : List A)
    → All (λ x. P (f x)) xs
    → All P (map f xs)
All-map P f [] h = tt
All-map P f (x ∷ xs) (p, h) = (p, All-map P f xs h)

is_text_apart :
    (o : Option Text) (a b : Text) → is_text o a ≡ true → text_eq a b ≡ false → is_text o b ≡ false
unfolding is_text
is_text_apart none a b h k = refl
is_text_apart (some r) a b h k = rw (eq_of_text_eq r a h) k

not_unexpected : text_eq (lit "intentional") (lit "unexpected") ≡ false
unfolding text_eq lit
not_unexpected = refl

not_oom : text_eq (lit "intentional") (lit "oom") ≡ false
unfolding text_eq lit
not_oom = refl

stopped_not_failed : (c : ContainerFleetStatus) → is_stopped c ≡ true → is_failed c ≡ false
unfolding is_stopped is_failed
stopped_not_failed c h =
    rw (is_text_apart c.disposition _ _ h not_unexpected, is_text_apart c.disposition _ _ h not_oom)
      refl

failed_variant :
    (c : ContainerFleetStatus) → is_failed c ≡ true → (down_row c).variant ≡ destructive
unfolding down_row is_stopped
failed_variant c h = elim (Bool-cases (is_text c.disposition (lit "intentional"))) [
  | inl e ↦ let f = stopped_not_failed c e in absurd cc
  | inr e ↦ rw e refl
]

stopped_variant : (c : ContainerFleetStatus) → is_stopped c ≡ true → (down_row c).variant ≡ outline
unfolding down_row is_stopped
stopped_variant c h = rw h refl

counted :
    (fleet : List ContainerFleetStatus)
    → length (filter is_failed fleet) + length (filter is_stopped fleet) ≤ length fleet
unfolding filter
counted [] = omega arith
counted (c ∷ fleet) = elim (Bool-cases (is_stopped c)) [
  | inl e ↦ rw (e, stopped_not_failed c e, filter) (omega (arith, counted fleet))
  | inr e ↦ ground (arith, counted fleet)
]

-- Of the containers that are down, those that failed have the badge of a failure and those that were stopped have
-- not, and no container stands in both sections.
pub down_rows :
    (fleet : List ContainerFleetStatus)
    → All (λ r. r.variant ≡ destructive) (map down_row (filter is_failed fleet))
      × All (λ r. r.variant ≡ outline) (map down_row (filter is_stopped fleet))
      × (length (filter is_failed fleet) + length (filter is_stopped fleet) ≤ length fleet)
down_rows fleet = (
  All-map _ down_row _ (All-imp failed_variant _ (All-filter_test is_failed fleet)),
  All-map _ down_row _ (All-imp stopped_variant _ (All-filter_test is_stopped fleet)),
  counted fleet,
)
