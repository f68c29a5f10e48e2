-- ===== src/Groups/Laws.antt =====
-- The suggestions of the panel, and the options of the select.
use argus_observability.Prelude.{
  ℕ, zero, suc, Bool, true, false, not, ◌&&◌, ◌||◌, Option, List, [], ◌∷◌, ◌++◌, map, any, ◌≡◌,
  refl, arith, if◌then◌else◌, or_default, Bool-cases, inl, inr,
}
use argus_observability.Prelude.Text.{Text, text_eq, text_eq_refl, is_empty}
use argus_observability.Api.Types.{WorkloadGroup}
use argus_observability.Groups.{SelectState, SelectOption, option_of, is_unknown, group_options}

-- The unit at a place of a text.
abbrev unit_at : ℕ → Text → ℕ
unit_at n [] = 0
unit_at zero (c ∷ s) = c
unit_at (suc n) (c ∷ s) = unit_at n s

-- The label that a group is known by.
abbrev pub label_of : WorkloadGroup → Text
label_of g = or_default g.label_value g.name

-- The group `h` differs from `g` in its kind or its label.
abbrev pub Differs : WorkloadGroup → WorkloadGroup → Type 0
Differs g h = ((h.kind ≡ g.kind) × (label_of h ≡ label_of g)) → ⊥

-- An option that can be chosen has the value.
abbrev pub offers : Text → List SelectOption → Bool
offers value options = any (λ o. not o.disabled && text_eq o.value value) options

offers-append :
    (value : Text) (xs ys : List SelectOption)
    → offers value (xs ++ ys) ≡ (offers value xs || offers value ys)
unfolding any
offers-append value [] ys = refl
offers-append value (x ∷ xs) ys = ground (arith, offers-append value xs ys)

offers-map :
    (value : Text) (groups : List WorkloadGroup)
    → offers value (map option_of groups) ≡ any (λ g. text_eq g.id value) groups
unfolding any
offers-map value [] = refl
offers-map value (g ∷ groups) = ground (arith, offers-map value groups)

offers_self :
    (value : Text) (rest : List SelectOption)
    → offers value (record { value = value; text = value; disabled = false } ∷ rest) ≡ true
unfolding any
offers_self value rest = ground (arith, text_eq_refl value)

later :
    (value : Text) (o : SelectOption) (xs ys : List SelectOption)
    → offers value ys ≡ true
    → offers value (o ∷ (xs ++ ys)) ≡ true
unfolding any
later value o xs ys h = ground (arith, offers-append value xs ys)

known_value :
    (value : Text) (groups : List WorkloadGroup)
    → is_empty value ≡ false
    → is_unknown value groups ≡ false
    → any (λ g. text_eq g.id value) groups ≡ true
unfolding is_unknown
known_value value groups e k = ground arith

offers_empty :
    (text : Text) (rest : List SelectOption)
    → offers [] (record { value = []; text = text; disabled = false } ∷ rest) ≡ true
unfolding any text_eq
offers_empty text rest = refl

known_or_not :
    (value : Text) (groups : List WorkloadGroup)
    → is_empty value ≡ false
    → offers value (
        (if is_unknown value groups
          then record { value = value; text = value; disabled = false } ∷ []
          else [])
        ++ map option_of groups)
      ≡ true
known_or_not value groups e = elim (Bool-cases (is_unknown value groups)) [
  | inl u ↦ rw u (offers_self value (map option_of groups))
  | inr k ↦ rw (k, offers-map value groups) (known_value value groups e k)
]

-- The select has an option that can be chosen and has the chosen value, whatever that is: none, the id of a group in
-- the list that the page gives or that was loaded, or an id that no group has, also if the list failed to load.
pub group_options-offers :
    (t : Text → Text) (provided : Option (List WorkloadGroup)) (s : SelectState) (value : Text)
    → offers value (group_options t provided s value) ≡ true
unfolding group_options
group_options-offers t provided s [] = offers_empty _ _
group_options-offers t provided s (c ∷ value) =
    later (c ∷ value) _ _ _ (known_or_not (c ∷ value) (or_default provided s.loaded) refl)
