-- ===== src/Overview/Total.antt =====
-- The cards of the overview against its list.
use argus_observability.Prelude.{
  ℕ, ◌+◌, ◌≤◌, false, Option, none, some, List, [], ◌∷◌, map, filter, length, length-take,
  length-append, length-filter, ◌≡◌, refl, ap, ◌∙◌, arith, ltb, ◌==◌, min, or_default, Bool-cases,
  Option-cases, inl, inr,
}
use argus_observability.Prelude.Text.{Text}
use argus_observability.Overview.{
  Data, OverviewState, breached_of, Words, items_of, alerts_card, slos_card, unstable_card,
  http_card, list_limit, OverviewList, no_list, all_well, needs_action, overview_list,
}

length-map {ℓ κ} :
    {A : Type ℓ} {B : Type κ} (f : A → B) (xs : List A) → length (map f xs) ≡ length xs
length-map f [] = refl
length-map f (x ∷ xs) = omega (arith, length-map f xs)

length-items_of :
    (words : Words) (d : Data)
    → length (items_of words d)
      ≡ length d.alerts + (length d.slos + (length d.unstable + length d.http))
unfolding items_of
length-items_of words d =
    rw
      (
        length-append (map _ d.alerts) _,
        length-append (map _ d.slos) _,
        length-append (map _ d.unstable) _,
        length-map _ d.alerts,
        length-map _ d.slos,
        length-map _ d.unstable,
        length-map _ d.http,
      )
      refl

-- The count in the hint of the objectives' card.
abbrev pub low_count : Option (Text × Option ℕ) → ℕ
low_count none = 0
low_count (some (key, none)) = 0
low_count (some (key, some n)) = n

slos_card-length : (d : Data) → (slos_card d).value + low_count (slos_card d).hint ≡ length d.slos
unfolding slos_card breached_of
slos_card-length d =
    let n = length (filter (λ s. s.breached) d.slos) in
    let small : n ≤ length d.slos = length-filter (λ s. s.breached) d.slos in
    elim (Bool-cases (ltb n (length d.slos))) [
      | inl e ↦ rw e (omega arith)
      | inr e ↦ rw e (ground arith)
    ]

items_total :
    (words : Words) (d : Data)
    → length (items_of words d)
      ≡ (alerts_card d).value
        + ((slos_card d).value
            + (low_count (slos_card d).hint + ((unstable_card d).value + (http_card d).value)))
unfolding alerts_card unstable_card http_card
items_total words d =
    let all : length (items_of words d)
        ≡ length d.alerts + (length d.slos + (length d.unstable + length d.http)) =
      length-items_of words d in
    let slos = slos_card-length d in omega arith

-- The items in the list, and the number that it says are left out.
abbrev pub listed : OverviewList → ℕ
listed no_list = 0
listed all_well = 0
listed (needs_action items rest) = length items

abbrev pub unlisted : OverviewList → ℕ
unlisted no_list = 0
unlisted all_well = 0
unlisted (needs_action items rest) = or_default rest 0

-- The sum of the counts on the cards, with the objectives that are only short of budget.
abbrev pub cards_total : Data → ℕ
cards_total d =
    (alerts_card d).value
    + ((slos_card d).value
        + (low_count (slos_card d).hint + ((unstable_card d).value + (http_card d).value)))

overview_list_lem :
    (words : Words) (s : OverviewState)
    → s.loading ≡ false
    → (listed (overview_list words s) ≡ min 8 (length (items_of words s.shown)))
      × (listed (overview_list words s) + unlisted (overview_list words s)
          ≡ length (items_of words s.shown))
unfolding overview_list
overview_list_lem words s l =
    let items = items_of words s.shown in
    let t = length-take list_limit items in
    elim (Bool-cases (length items == 0)) [
      | inl e ↦ elim (Option-cases s.error) [
        | inl n ↦ rw (l, e, n) (ground arith, ground arith)
        | inr (m, n) ↦ rw (l, e, n) (ground arith, ground arith)
      ]
      | inr e ↦ elim (Bool-cases (ltb list_limit (length items))) [
        | inl f ↦ rw (l, e, f) (ground arith, ground arith)
        | inr f ↦ rw (l, e, f) (ground arith, ground arith)
      ]
    ]

-- The cards account for the list, once the page is not loading: the list shows as many items as the cards count
-- together, with the objectives that are only short of budget, but at most eight, and says how many of that sum are
-- left out.
pub overview_total :
    (words : Words) (s : OverviewState)
    → s.loading ≡ false
    → (listed (overview_list words s) ≡ min 8 (cards_total s.shown))
      × (listed (overview_list words s) + unlisted (overview_list words s) ≡ cards_total s.shown)
overview_total words s l =
    let (shown, all) = overview_list_lem words s l in
    let n : length (items_of words s.shown) ≡ cards_total s.shown = items_total words s.shown in
    (shown ∙ ap (min 8) n, all ∙ n)
