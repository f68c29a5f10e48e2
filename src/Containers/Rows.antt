-- ===== src/Containers/Rows.antt =====
-- The containers that have a row: those that a workload or a status names, once.
use argus_observability.Prelude.{
  ◌≤◌, Bool, ◌||◌, Option, none, some, List, [], ◌∷◌, map, if◌then◌else◌, ◌≡◌, refl, ap, subst,
  arith, any, Bool-cases, inl, inr, or_default,
}
use argus_observability.Prelude.Text.{Text, text_eq, text_eq_iff, eq_of_text_eq, occurs}
use argus_observability.Api.Types.{WorkloadSnapshot, ContainerFleetStatus, FleetStatusResponse}
use argus_observability.Containers.{
  ContainerRow, set_row, row_of, add_workloads, with_status, add_statuses, statuses_of, all_rows,
}

abbrev pub names : List ContainerRow → List Text
names rows = map (λ r. r.container) rows

-- A workload or a status names the container.
abbrev pub is_named : Text → List WorkloadSnapshot → Option FleetStatusResponse → Bool
is_named x workloads fleet =
    any (λ (s : ContainerFleetStatus). text_eq x s.container) (statuses_of fleet)
    || any (λ (w : WorkloadSnapshot). text_eq x w.container) workloads

occurs-set_row :
    (x : Text) (row : ContainerRow) (rows : List ContainerRow)
    → occurs x (names rows) ≤ 1
    → occurs x (names (set_row row rows))
      ≡ (if text_eq x row.container then 1 else occurs x (names rows))
unfolding set_row occurs
occurs-set_row x row [] h = ground arith
occurs-set_row x row (r ∷ rows) h = elim (Bool-cases (text_eq r.container row.container)) [
  | inl e ↦
      let same = eq_of_text_eq r.container row.container e in
      rw (e, set_row) (ground (arith, ap (text_eq x) same))
  | inr e ↦
      rw (e, set_row)
        (let ih = occurs-set_row x row rows in
          ground (
            arith,
            ih,
            text_eq_iff x r.container,
            text_eq_iff x row.container,
            text_eq_iff r.container row.container,
          ))
]

container-row_of :
    (name : Text) (rows : List ContainerRow) (d : ContainerRow)
    → d.container ≡ name
    → (or_default (row_of name rows) d).container ≡ name
unfolding row_of
container-row_of name [] d h = h
container-row_of name (r ∷ rows) d h = elim (Bool-cases (text_eq r.container name)) [
  | inl e ↦ rw (e, row_of) (eq_of_text_eq r.container name e)
  | inr e ↦ rw (e, row_of) (container-row_of name rows d h)
]

container-with_status :
    (s : ContainerFleetStatus) (rows : List ContainerRow)
    → (with_status s rows).container ≡ s.container
unfolding with_status
container-with_status s rows = container-row_of s.container rows _ refl

occurs-add_workloads :
    (x : Text) (ws : List WorkloadSnapshot) (rows : List ContainerRow)
    → occurs x (names rows) ≤ 1
    → occurs x (names (add_workloads ws rows)) ≡ (
        if any (λ (w : WorkloadSnapshot). text_eq x w.container) ws
        then 1
        else occurs x (names rows))
unfolding add_workloads any
occurs-add_workloads x [] rows h = refl
occurs-add_workloads x (w ∷ ws) rows h =
    let row : ContainerRow = record { container = w.container; workload = some w; status = none } in
    let step = occurs-set_row x row rows h in
    let ih = occurs-add_workloads x ws (set_row row rows) in ground (arith, step, ih)

occurs-add_statuses :
    (x : Text) (statuses : List ContainerFleetStatus) (rows : List ContainerRow)
    → occurs x (names rows) ≤ 1
    → occurs x (names (add_statuses statuses rows)) ≡ (
        if any (λ (s : ContainerFleetStatus). text_eq x s.container) statuses
        then 1
        else occurs x (names rows))
unfolding add_statuses any
occurs-add_statuses x [] rows h = refl
occurs-add_statuses x (s ∷ statuses) rows h =
    let step =
      subst
        (λ c.
          occurs x (names (set_row (with_status s rows) rows))
          ≡ (if text_eq x c then 1 else occurs x (names rows)))
        (container-with_status s rows) (occurs-set_row x (with_status s rows) rows h) in
    let ih = occurs-add_statuses x statuses (set_row (with_status s rows) rows) in
    ground (arith, step, ih)

-- Before the group and the filter, the page has one row for each container that a workload or a status names, and
-- none for any other.
pub occurs-all_rows :
    (workloads : List WorkloadSnapshot) (fleet : Option FleetStatusResponse) (x : Text)
    → occurs x (names (all_rows workloads fleet)) ≡ (if is_named x workloads fleet then 1 else 0)
unfolding all_rows occurs
occurs-all_rows workloads fleet x =
    let nil : occurs x [] ≡ 0 = refl in
    let step = occurs-add_workloads x workloads [] in
    ground
      (arith, nil, step, occurs-add_statuses x (statuses_of fleet) (add_workloads workloads []))
