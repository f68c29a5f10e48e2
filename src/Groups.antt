-- ===== src/Groups.antt =====
-- web/src/views/groups-panel.tsx and web/src/components/filters/group-select.tsx: the groups of containers. An action of the
-- panel is a call of the hub that gives nothing or the message of an error.
pub mod Laws
mod Tests
use argus_observability.Prelude.{
  ℕ, Bool, true, false, not, ◌&&◌, ◌||◌, ◌==◌, Option, none, some, List, [], ◌∷◌, ◌++◌, map, filter,
  any, take, length, if◌then◌else◌, or_default,
}
use argus_observability.Prelude.Text.{Text, lit, text_eq, is_empty, trim, has_text}
use argus_observability.Api.Types.{
  WorkloadGroup, WorkloadGroupInput, GroupKind, stack, service, custom,
}
use argus_observability.Metrics.Compare.{toggled}

-- The text that a kind is in the source.
abbrev pub kind_text : GroupKind → Text
kind_text stack = lit "stack"
kind_text service = lit "service"
kind_text custom = lit "custom"

unfoldable pub kind_label : (Text → Text) → GroupKind → Text
kind_label t stack = t (lit "groups.kindStack")
kind_label t service = t (lit "groups.kindService")
kind_label t custom = t (lit "groups.kindCustom")

-- The key of the text and the count that it is given.
unfoldable pub members_label : ℕ → Text × Option ℕ
members_label n =
    if n == 1 then (lit "groups.oneContainer", none) else (lit "groups.nContainers", some n)

pub record PanelState : Type 0 where
  pub discovered : List WorkloadGroup
  pub custom_name : Text
  pub custom_selected : List Text
  pub error : Option Text

abbrev pub panel_opened : PanelState
panel_opened = record { discovered = []; custom_name = []; custom_selected = []; error = none }

unfoldable pub discovered_answered : Option (List WorkloadGroup) → PanelState → PanelState
discovered_answered answer s = record s { discovered = or_default answer [] }

-- The template `${g.kind}:${g.label_value ?? g.name}`.
unfoldable pub group_key : WorkloadGroup → Text
group_key g = kind_text g.kind ++ (lit ":" ++ or_default g.label_value g.name)

unfoldable pub is_saved : List WorkloadGroup → WorkloadGroup → Bool
unfolding group_key
is_saved groups g = has_text (map group_key groups) (group_key g)

unfoldable pub suggestions_of : List WorkloadGroup → List WorkloadGroup → List WorkloadGroup
unfolding is_saved
suggestions_of groups discovered = take 8 (filter (λ g. not (is_saved groups g)) discovered)

-- What the panel asks of the page: a new list of groups and of discovered groups.
pub record ActionEnd : Type 0 where
  pub state : PanelState
  pub changed : Bool

-- The end of `run`: `none` where the action succeeds, and otherwise the message.
unfoldable pub ran : Option Text → PanelState → ActionEnd
ran none s = record { state = record s { error = none }; changed = true }
ran (some message) s = record { state = record s { error = some message }; changed = false }

-- The group that `importDiscovered` sends; `imported` is the translation of `groups.importedFrom`.
unfoldable pub import_input :
    (Text → Text) → (Text → Text → Text) → WorkloadGroup → WorkloadGroupInput
unfolding kind_label
import_input t imported g = record {
  name = g.name;
  kind = g.kind;
  description = some (trim (imported (kind_label t g.kind) (or_default g.label_value [])));
  label_key = g.label_key;
  label_value = g.label_value;
  containers = none;
}

abbrev pub ready : PanelState → Bool
ready s = not (is_empty (trim s.custom_name)) && not (length s.custom_selected == 0)

-- The group that `saveCustomGroup` sends, if the form is filled.
unfoldable pub custom_input : Text → PanelState → Option WorkloadGroupInput
custom_input description s =
    if ready s
    then some (record {
      name = trim s.custom_name;
      kind = custom;
      description = some description;
      label_key = none;
      label_value = none;
      containers = some s.custom_selected;
    })
    else none

-- `saveCustomGroup` with the hub's answer: the fields are emptied only if the group was created.
unfoldable pub save_custom_group : Option Text → PanelState → ActionEnd
unfolding ran
save_custom_group answer s =
    let emptied = record s { custom_name = []; custom_selected = [] } in
    let done : ActionEnd = elim answer [
      | none ↦ ran none emptied
      | some message ↦ ran (some message) s
    ] in
    if ready s then done else record { state = s; changed = false }

-- `removeGroup`: the group that is selected afterwards, and the outcome of the call.
unfoldable pub remove_group : Text → Text → Option Text → PanelState → Text × ActionEnd
unfolding ran
remove_group id active answer s = (if text_eq active id then [] else active, ran answer s)

unfoldable pub toggle_custom_container : Text → PanelState → PanelState
toggle_custom_container name s = record s { custom_selected = toggled name s.custom_selected }

-- The button that creates a group: disabled, and its text.
unfoldable pub create_button : PanelState → Bool × Option (Text × Option ℕ)
unfolding members_label
create_button s = (
  not (ready s),
  if length s.custom_selected == 0 then none else some (members_label (length s.custom_selected)),
)

-- The select of a group: its own list where the page gives none, and whether loading it failed.
pub record SelectState : Type 0 where
  pub loaded : List WorkloadGroup
  pub failed : Bool

unfoldable pub groups_answered : Option (List WorkloadGroup) → SelectState
groups_answered none = record { loaded = []; failed = true }
groups_answered (some g) = record { loaded = g; failed = false }

-- An option: its value, its text, and whether it is disabled.
pub record SelectOption : Type 0 where
  pub value : Text
  pub text : Text
  pub disabled : Bool

abbrev pub option_of : WorkloadGroup → SelectOption
option_of g = record { value = g.id; text = g.name; disabled = false }

unfoldable pub is_unknown : Text → List WorkloadGroup → Bool
is_unknown value groups = not (is_empty value) && not (any (λ g. text_eq g.id value) groups)

unfoldable pub group_options :
    (Text → Text) → Option (List WorkloadGroup) → SelectState → Text → List SelectOption
unfolding is_unknown
group_options t provided s value =
    let groups = or_default provided s.loaded in
    record { value = []; text = t (lit "common.allGroups"); disabled = false }
    ∷ ((if s.failed
          then record { value = []; text = t (lit "common.groupsError"); disabled = true } ∷ []
          else [])
        ++ ((if is_unknown value groups
              then record { value = value; text = value; disabled = false } ∷ []
              else [])
            ++ map option_of groups))
