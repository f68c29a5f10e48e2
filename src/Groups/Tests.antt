-- ===== src/Groups/Tests.antt =====
-- A suggestion, and a group that is not in the list.
use argus_observability.Prelude.{true, none, some, [], ◌∷◌, ◌≡◌, refl}
use argus_observability.Prelude.Text.{Text, lit, trim}
use argus_observability.Api.Types.{WorkloadGroup, stack, custom}
use argus_observability.Groups.{
  PanelState, panel_opened, ran, save_custom_group, groups_answered, group_options,
}
use argus_observability.Groups.Laws.{offers, group_options-offers}

abbrev shop : Text → WorkloadGroup
shop id = record {
  id = id;
  name = lit "shop";
  kind = stack;
  description = none;
  label_key = some (lit "stack");
  label_value = some (lit "shop");
  containers = none;
  member_count = some 2;
  created_at = none;
  updated_at = none;
}

-- A saved group of the same label and another kind.
abbrev mine : WorkloadGroup
mine = record (shop (lit "1")) { kind = custom }

abbrev filled : PanelState
filled = record panel_opened { custom_name = lit "mine"; custom_selected = lit "api" ∷ [] }

-- The hub refuses the group, and then takes it.
create_runs :
    ((save_custom_group (some (lit "no")) filled).state ≡ record filled { error = some (lit "no") })
    × ((save_custom_group none filled).state ≡ panel_opened)
unfolding save_custom_group ran trim lit
create_runs = (refl, refl)

-- A choice that no group has, after the list failed to load.
group_options-offers_example :
    offers (lit "gone") (group_options (λ key. key) none (groups_answered none) (lit "gone")) ≡ true
group_options-offers_example =
    group_options-offers (λ key. key) none (groups_answered none) (lit "gone")
