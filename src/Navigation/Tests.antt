-- ===== src/Navigation/Tests.antt =====
-- The entries on some paths.
use argus_observability.Prelude.{[], ◌∷◌, ◌≡◌, refl, map, filter}
use argus_observability.Prelude.Text.{lit, text_eq, starts_with}
use argus_observability.Navigation.{nav_items, is_nav_item_active}

traces_run :
    map
      (λ item. item.label_key)
      (filter (λ item. is_nav_item_active item (lit "/traces/4bf9")) nav_items)
    ≡ lit "nav.traces" ∷ []
unfolding is_nav_item_active text_eq starts_with lit filter
traces_run = refl

home_run :
    map (λ item. item.label_key) (filter (λ item. is_nav_item_active item (lit "/")) nav_items)
    ≡ lit "nav.overview" ∷ []
unfolding is_nav_item_active text_eq starts_with lit filter
home_run = refl
