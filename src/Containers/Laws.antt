-- ===== src/Containers/Laws.antt =====
-- The order of the rows, the counts, and the stacked chart.
use argus_observability.Prelude.{
  filter-All, suc, ◌+◌, ◌≤◌, true, false, Option, List, [], ◌∷◌, ◌≡◌, ◌⊎◌, ◌↔◌, inl, inr, refl, ap,
  arith, length, filter, Has, All, All-imp, All-filter_test, Ordered, Ordered-imp, Has-filter,
  Has-of_filter, Bool-cases, and_true,
}
use argus_observability.Prelude.Text.{Text, lit, text_eq}
use argus_observability.Prelude.Sort.{
  sort_by, IsPreorder, sort_by-Ordered, Has-sort_by, Has-of_sort_by, All-sort_by,
}
use argus_observability.Api.Types.{WorkloadSnapshot, FleetStatusResponse}
use argus_observability.Containers.{
  ContainerRow, row_unstable, cpu_of, row_before, all_rows, keeps, rows_of, Counts, count_row,
  count_rows, counts_of,
}

-- Unstable rows stand first, and of two rows that are both unstable or both not, the one that uses more CPU.
abbrev pub StandsBefore : ContainerRow → ContainerRow → Type 0
StandsBefore a b =
    ((row_unstable a ≡ true) × (row_unstable b ≡ false))
    ⊎ ((row_unstable a ≡ row_unstable b) × (cpu_of b ≤ cpu_of a))

row_before-IsPreorder : IsPreorder row_before
unfolding row_before
row_before-IsPreorder = record { total = λ a b. ground arith; trans = λ a b c p q. ground arith }

stands_of_before : (a b : ContainerRow) → row_before a b ≡ true → StandsBefore a b
unfolding row_before
stands_of_before a b h = ground arith

-- The page lists exactly the rows that the group and the filter keep, the unstable ones first and then by the CPU.
pub rows_of-StandsBefore :
    (workloads : List WorkloadSnapshot) (fleet : Option FleetStatusResponse)
    (members : Option (List Text)) (choice : Text) (r : ContainerRow)
    → Ordered StandsBefore (rows_of workloads fleet members choice)
      × (Has r (rows_of workloads fleet members choice)
          ↔ (Has r (all_rows workloads fleet) × (keeps members choice r ≡ true)))
unfolding rows_of
rows_of-StandsBefore workloads fleet members choice r =
    let kept = filter (keeps members choice) (all_rows workloads fleet) in
    (
      Ordered-imp stands_of_before (sort_by row_before kept)
          (sort_by-Ordered row_before row_before-IsPreorder kept),
      (
        (λ m.
            Has-of_filter (keeps members choice) (all_rows workloads fleet)
              (Has-of_sort_by row_before kept m)),
        λ h. Has-sort_by row_before (Has-filter (keeps members choice) h.0 h.1),
      ),
    )

count_rows-unstable :
    (rows : List ContainerRow) (c : Counts)
    → (count_rows rows c).unstable ≡ c.unstable + length (filter row_unstable rows)
unfolding count_rows count_row filter
count_rows-unstable [] c = omega arith
count_rows-unstable (r ∷ rows) c = elim (Bool-cases (row_unstable r)) [
  | inl e ↦
      let ih = count_rows-unstable rows (count_row r c) in
      let one : (count_row r c).unstable ≡ suc c.unstable = rw (e, count_row) refl in
      rw (e, filter) (omega (arith, ih, one))
  | inr e ↦
      let ih = count_rows-unstable rows (count_row r c) in
      let same : (count_row r c).unstable ≡ c.unstable = rw (e, count_row) refl in
      rw (e, filter) (omega (arith, ih, same))
]

keeps_unstable :
    (members : Option (List Text)) (choice : Text) (r : ContainerRow)
    → text_eq choice (lit "unstable") ≡ true
    → keeps members choice r ≡ true
    → row_unstable r ≡ true
unfolding keeps
keeps_unstable members choice r e h = (and_true _ (row_unstable r) (rw (e, keeps) at h)).1

-- With the filter on unstable containers, the count of those that need attention is the number of rows.
pub counts_of-rows_of :
    (workloads : List WorkloadSnapshot) (fleet : Option FleetStatusResponse)
    (members : Option (List Text)) (choice : Text)
    → text_eq choice (lit "unstable") ≡ true
    → (counts_of (rows_of workloads fleet members choice)).unstable
      ≡ length (rows_of workloads fleet members choice)
unfolding counts_of rows_of
counts_of-rows_of workloads fleet members choice e =
    let kept = filter (keeps members choice) (all_rows workloads fleet) in
    let rows = sort_by row_before kept in
    let all : All (λ r. row_unstable r ≡ true) rows = All-sort_by row_before _ kept (
      All-imp (λ r h. keeps_unstable members choice r e h) kept
        (All-filter_test (keeps members choice) (all_rows workloads fleet))) in
    let n =
      count_rows-unstable rows (record { running = 0; unstable = 0; stopped = 0; restarts = 0 }) in
    omega (arith, n, ap length (filter-All row_unstable rows all))
