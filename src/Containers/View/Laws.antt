-- ===== src/Containers/View/Laws.antt =====
-- A line of the table that is highlighted says why.
use argus_observability.Prelude.{
  Bool, true, false, Option, none, some, ◌≡◌, refl, inl, inr, Bool-cases, if◌then◌else◌,
}
use argus_observability.Api.Types.{ContainerFleetStatus}
use argus_observability.Fleet.{is_unstable, Reason, instability_reason}
use argus_observability.Fleet.Laws.{Justified, instability_reason-Justified}
use argus_observability.Containers.{ContainerRow, row_unstable}
use argus_observability.Containers.View.{cells_of}

-- A line without a reason is not highlighted; a line with a reason is, and the reason holds of its status.
abbrev pub Explained : Option ContainerFleetStatus → Bool → Option Reason → Type 0
Explained status highlighted none = highlighted ≡ false
Explained status highlighted (some reason) =
    (highlighted ≡ true) × ((s : ContainerFleetStatus) × (status ≡ some s) × Justified s reason)

explained :
    (status : Option ContainerFleetStatus)
    → Explained status
        (elim status [ none ↦ false | some s ↦ is_unstable s ])
        (elim status [
          | none ↦ none
          | some s ↦ if is_unstable s then some (instability_reason s) else none
        ])
explained none = refl
explained (some s) = elim (Bool-cases (is_unstable s)) [
  | inl e ↦ rw e (refl, (s, refl, instability_reason-Justified s e))
  | inr e ↦ rw e refl
]

-- In the table, a line is highlighted exactly if it gives a reason for attention, and the reason holds of its status.
pub cells_of-Explained :
    (row : ContainerRow) → Explained row.status (cells_of row).highlighted (cells_of row).attention
unfolding cells_of row_unstable
cells_of-Explained row = explained row.status
