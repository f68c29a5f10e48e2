-- ===== src/Topology/Rank.antt =====
-- `rankServices`, `filterServices`, `pickService` and `busiestWorkload`.
pub mod Pick
use argus_observability.Prelude.{
  ℕ, ◌+◌, ◌≤◌, ◌<◌, Bool, true, false, ◌||◌, Option, none, some, List, [], ◌∷◌, map, if◌then◌else◌,
  leb, ltb, ◌==◌, ◌≡◌, ◌≢◌, ◌⊎◌, inl, inr, refl, arith, length, filter, find, first, Has, here,
  there, All, Ordered, Ordered-imp, Bool-cases, or_default, get_elem?,
}
use mathlib.Core.List.{Perm}
use argus_observability.Prelude.Text.{
  Text, text_eq, text_eq_iff, is_empty, includes, trim, to_lower_case,
}
use argus_observability.Prelude.Sort.{
  sort_by, IsPreorder, sort_by-perm, sort_by-Ordered, All-sort_by, Has-sort_by,
}
use argus_observability.Api.Types.{WorkloadSnapshot}
use argus_observability.Topology.Status.{OpStatus, rank}
use argus_observability.Topology.Build.{ServiceView}

abbrev pub degree : ServiceView → ℕ
degree s = length s.upstream + length s.downstream

module _ (label_le : Text → Text → Bool) where
  -- `before a b` is "the comparator of `rankServices` is not positive". `label_le a b` is
  -- `a.localeCompare(b) <= 0`, which the browser's collation decides.
  unfoldable pub before : ServiceView → ServiceView → Bool
  before a b =
      if ltb (rank a.status) (rank b.status)
      then true
      else if ltb (rank b.status) (rank a.status)
      then false
      else if ltb (degree b) (degree a)
      then true
      else if ltb (degree a) (degree b)
      then false
      else label_le a.label b.label

  unfoldable pub rank_services : List ServiceView → List ServiceView
  rank_services services = sort_by before services

  before-IsPreorder : IsPreorder label_le → IsPreorder before
  unfolding before
  before-IsPreorder law = record {
    total = λ a b. ground (arith, law.total a.label b.label);
    trans = λ a b c p q. ground (arith, law.trans a.label b.label c.label);
  }

  -- The order of the list: by status; in one status more edges first; then by label.
  abbrev pub RankedBefore : ServiceView → ServiceView → Type 0
  RankedBefore a b =
      (rank a.status < rank b.status)
      ⊎ ((rank a.status ≡ rank b.status)
          × ((degree b < degree a) ⊎ ((degree a ≡ degree b) × (label_le a.label b.label ≡ true))))

  ranked_of_before : (a b : ServiceView) → before a b ≡ true → RankedBefore a b
  unfolding before
  ranked_of_before a b h = ground arith

  -- If the collation is a consistent order, `rankServices` rearranges the services so that each one
  -- stands before every later one by status, then by number of edges, then by label.
  pub rank_services-Ordered :
      IsPreorder label_le
      → (services : List ServiceView)
      → Perm (rank_services services) services × Ordered RankedBefore (rank_services services)
  unfolding rank_services
  rank_services-Ordered law services = (
    sort_by-perm before services,
    Ordered-imp ranked_of_before (sort_by before services)
        (sort_by-Ordered before (before-IsPreorder law) services),
  )

-- `filterServices`.
unfoldable pub filter_services : List ServiceView → Text → List ServiceView
unfolding trim to_lower_case includes filter
filter_services services query =
    let q = to_lower_case (trim query) in
    if is_empty q
    then services
    else filter (λ s. includes (to_lower_case s.label) q || includes (to_lower_case s.id) q)
        services

-- `services.find((s) => s.id === focus) ?? services[0]`, and `null` for no services.
unfoldable pub pick_service : List ServiceView → Text → Option ServiceView
pick_service [] focus = none
pick_service (s ∷ services) focus =
    some (or_default (find (λ v. text_eq v.id focus) (s ∷ services)) s)

-- `[...workloads].sort((a, b) => b.cpu_usage - a.cpu_usage)[0]`.
abbrev pub hotter : WorkloadSnapshot → WorkloadSnapshot → Bool
hotter a b = leb b.cpu_usage a.cpu_usage

unfoldable pub busiest_workload : List WorkloadSnapshot → Option WorkloadSnapshot
busiest_workload workloads = first (sort_by hotter workloads)
