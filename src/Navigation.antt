-- ===== src/Navigation.antt =====
-- web/src/lib/navigation.ts, web/src/components/layout/app-sidebar.tsx and language-switch.tsx: the entries of the
-- navigation, the one that is active, and the language that the switch shows.
mod Tests
use argus_observability.Prelude.{
  Bool, true, false, Option, none, some, List, [], ◌∷◌, ◌++◌, map, filter, if◌then◌else◌, ◌≡◌, refl,
}
use argus_observability.Prelude.Text.{Text, lit, text_eq, starts_with}

-- The icon of an entry is not modelled.
pub record NavItem : Type 0 where
  pub to : Text
  pub label_key : Text
  pub end : Bool

abbrev entry : Text → Text → NavItem
entry to label_key = record { to = to; label_key = label_key; end = false }

abbrev pub nav_items : List NavItem
nav_items =
    record { to = lit "/"; label_key = lit "nav.overview"; end = true }
    ∷ entry (lit "/problems") (lit "nav.problems")
    ∷ entry (lit "/containers") (lit "nav.containers")
    ∷ entry (lit "/metrics") (lit "nav.metrics")
    ∷ entry (lit "/logs") (lit "nav.logs")
    ∷ entry (lit "/traces") (lit "nav.traces")
    ∷ entry (lit "/topology") (lit "nav.topology")
    ∷ []

unfoldable pub is_nav_item_active : NavItem → Text → Bool
is_nav_item_active item pathname =
    if item.end then text_eq pathname item.to else starts_with pathname item.to

-- The buttons of the sidebar: whether each is active, its label and its link.
unfoldable pub sidebar : (Text → Text) → Text → List (Bool × Text × Text)
unfolding is_nav_item_active
sidebar t pathname =
    map (λ item. (is_nav_item_active item pathname, t item.label_key, item.to)) nav_items

-- The language that the switch shows as chosen.
unfoldable pub current_language : Text → Text
current_language language = if starts_with language (lit "pt") then lit "pt-BR" else lit "en"
