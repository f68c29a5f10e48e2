-- ===== src/Topology/Panel/Laws.antt =====
-- What the page of the topology shows.
use argus_observability.Prelude.{
  ℕ, suc, ◌+◌, Bool, true, false, not, ◌&&◌, Option, none, some, List, [], ◌∷◌, map, any, length,
  ◌≡◌, ◌≢◌, ◌⊎◌, inl, inr, refl, subst, arith, Has, Has-of_filter, All, All-filter_test, All-filter,
  All-imp, Bool-cases, not-eq_true, filter,
}
use argus_observability.Prelude.Text.{Text, text_eq, text_eq_iff, is_empty, to_lower_case, trim}
use argus_observability.Topology.Status.{OpStatus, critical, warning, healthy, unknown}
use argus_observability.Topology.Build.{ServiceView}
use argus_observability.Topology.Rank.{filter_services, pick_service}
use argus_observability.Topology.Rank.Pick.{pick_service-IsPicked}
use argus_observability.Topology.Address.{is_address, split_addresses}
use argus_observability.Topology.Address.Laws.{split_addresses-filter}
use argus_observability.Topology.Load.{PageState}
use argus_observability.Topology.Panel.{
  Choices, Tally, count_one, count_from, counts, focus_missing, selected_service, Row, row_of,
  shown_of,
}

and_false : (a : Bool) → (a && not true) ≡ false
and_false true = refl
and_false false = refl

abbrev pub total : Tally → ℕ
total t = t.criticals + t.warnings + t.healthies + t.unknowns

total-count_one : (status : OpStatus) (t : Tally) → total (count_one status t) ≡ suc (total t)
unfolding count_one
total-count_one critical t = omega arith
total-count_one warning t = omega arith
total-count_one healthy t = omega arith
total-count_one unknown t = omega arith

total-count_from :
    (t : Tally) (services : List ServiceView)
    → total (count_from t services) ≡ total t + length services
unfolding count_from
total-count_from t [] = omega arith
total-count_from t (s ∷ services) =
    omega (arith, total-count_from (count_one s.status t) services, total-count_one s.status t)

-- The four counts of the summary add up to the number of services that have a name.
pub total-counts : (named : List ServiceView) → total (counts named) ≡ length named
unfolding counts
total-counts named = omega (
  arith,
  total-count_from (record { criticals = 0; warnings = 0; healthies = 0; unknowns = 0 }) named,
)

focus_missing-any :
    (ranked : List ServiceView) (focus : Text)
    → any (λ v. text_eq v.id focus) ranked ≡ true
    → focus_missing ranked focus ≡ false
unfolding focus_missing
focus_missing-any [] focus h = refl
focus_missing-any (s ∷ ranked) focus h = rw h (and_false (not (is_empty focus)))

not-text_eq : (a b : Text) → a ≢ b → text_eq a b ≡ false
not-text_eq a b h = elim (Bool-cases (text_eq a b)) [
  | inl e ↦ absurd (h ((text_eq_iff a b).0 e))
  | inr e ↦ e
]

any-of_All-false {ℓ} :
    {A : Type ℓ} (p : A → Bool) (xs : List A) → All (λ x. p x ≡ false) xs → any p xs ≡ false
unfolding any
any-of_All-false p [] h = refl
any-of_All-false p (x ∷ xs) (e, h) = rw e (any-of_All-false p xs h)

Has-pick_service :
    (services : List ServiceView) (focus : Text) (s : ServiceView)
    → services ≢ []
    → pick_service services focus ≡ some s
    → Has s services
Has-pick_service services focus s full h =
    let (v, e, p) = pick_service-IsPicked services focus full in
    let same : v ≡ s = cc in subst (λ x. Has x services) same p.0

Has-pick_named :
    (ranked named : List ServiceView) (focus : Text) (s : ServiceView)
    → ((v : ServiceView) → Has v named → Has v ranked)
    → pick_service named focus ≡ some s
    → Has s ranked
unfolding pick_service
Has-pick_named ranked [] focus s inside h = cc
Has-pick_named ranked (n ∷ named) focus s inside h =
    inside s (Has-pick_service (n ∷ named) focus s (λ e. cc) h)

choose :
    (ranked : List ServiceView) (o : Option ServiceView)
    → ranked ≢ []
    → ((s : ServiceView) → o ≡ some s → Has s ranked)
    → (s : ServiceView) × (elim o [ none ↦ pick_service ranked [] | some s ↦ some s ] ≡ some s)
      × Has s ranked
choose ranked none full h = let (s, e, p) = pick_service-IsPicked ranked [] full in (s, e, p.0)
choose ranked (some s) full h = (s, refl, h s refl)

known :
    (ranked named : List ServiceView) (focus : Text) (s : ServiceView)
    → focus_missing ranked focus ≡ false
    → pick_service ranked focus ≡ some s
    → selected_service ranked named focus ≡ some s
unfolding selected_service
known ranked named focus s e p = rw (e, selected_service) (rw p refl)

selected_focus :
    (ranked named : List ServiceView) (focus : Text)
    → ranked ≢ []
    → any (λ v. text_eq v.id focus) ranked ≡ true
    → (s : ServiceView) × (selected_service ranked named focus ≡ some s)
      × Has s ranked
      × ((s.id ≡ focus) ⊎ (any (λ v. text_eq v.id focus) ranked ≡ false))
unfolding selected_service
selected_focus ranked named focus full e =
    let (s, p, m) = pick_service-IsPicked ranked focus full in
    (
      s,
      known ranked named focus s (focus_missing-any ranked focus e) p,
      m.0,
      elim m.1 [
        | inl same ↦ inl same
        | inr other ↦
            inr
              (any-of_All-false _ ranked (All-imp (λ v n. not-text_eq v.id focus n) ranked other.0))
      ],
    )

selected_other :
    (ranked named : List ServiceView) (focus : Text)
    → ((v : ServiceView) → Has v named → Has v ranked)
    → ranked ≢ []
    → (s : ServiceView) × (selected_service ranked named focus ≡ some s) × Has s ranked
unfolding selected_service
selected_other ranked named focus inside full = elim (Bool-cases (focus_missing ranked focus)) [
  | inl e ↦
      rw (e, selected_service)
        (choose ranked _ full (λ s h. Has-pick_named ranked named [] s inside h))
  | inr e ↦
      rw (e, selected_service)
        (choose ranked _ full (λ s h. Has-pick_service ranked focus s full h))
]

Has-named :
    (services : List ServiceView) (v : ServiceView)
    → Has v (split_addresses services).named
    → Has v services
Has-named services v m =
    let named = (split_addresses-filter services).0 in
    (Has-of_filter (λ s. not (is_address s.id)) services (subst (λ l. Has v l) named m)).0

-- Where there is a service, the page selects one of them: that of the focus, unless no service has that id.
pub selected_service_lem :
    (page : PageState) (choices : Choices) (ranked : List ServiceView)
    → ranked ≢ []
    → (s : ServiceView) × ((shown_of page choices ranked).selected ≡ some s)
      × Has s ranked
      × ((s.id ≡ choices.focus) ⊎ (any (λ v. text_eq v.id choices.focus) ranked ≡ false))
unfolding shown_of
selected_service_lem page choices ranked full =
    let named = (split_addresses ranked).named in
    elim (Bool-cases (any (λ v. text_eq v.id choices.focus) ranked)) [
      | inl e ↦ selected_focus ranked named choices.focus full e
      | inr e ↦
          let (s, p, m) = selected_other ranked named choices.focus (Has-named ranked) full in
          (s, p, m, inr e)
    ]

filter_services-All {κ} :
    (P : ServiceView → Type κ) (services : List ServiceView) (query : Text)
    → All P services
    → All P (filter_services services query)
unfolding filter_services
filter_services-All P services query h = elim (Bool-cases (is_empty (to_lower_case (trim query)))) [
  | inl e ↦ rw e h
  | inr e ↦ rw e (All-filter P _ services h)
]

All-rows :
    (selected : Option ServiceView) (services : List ServiceView)
    → All (λ (s : ServiceView). is_address s.id ≡ false) services
    → All (λ (r : Row). is_address r.id ≡ false) (map (row_of selected) services)
unfolding row_of
All-rows selected [] h = tt
All-rows selected (s ∷ services) (p, h) = (p, All-rows selected services h)

-- Unless the addresses are asked for, no line of the list is an address.
pub rows-named :
    (page : PageState) (choices : Choices) (ranked : List ServiceView)
    → is_empty choices.show_addresses ≡ true
    → All (λ (r : Row). is_address r.id ≡ false) (shown_of page choices ranked).rows
unfolding shown_of
rows-named page choices ranked h =
    rw (h, (split_addresses-filter ranked).0)
      (All-rows _ _ (
        filter_services-All (λ s. is_address s.id ≡ false)
          (filter (λ s. not (is_address s.id)) ranked) choices.query
          (All-imp (λ s e. not-eq_true _ e) _
            (All-filter_test (λ s. not (is_address s.id)) ranked))))
