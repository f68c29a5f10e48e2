-- ===== src/Topology/Rank/Pick.antt =====
-- What `pickService` and `busiestWorkload` choose.
use argus_observability.Prelude.{
  ◌≤◌, true, none, some, List, [], ◌∷◌, ◌≡◌, ◌≢◌, ◌⊎◌, ◌↔◌, inl, inr, refl, subst, arith, find,
  find-some, find-none, first, Has, here, All, All-at, All-imp, All-of_Has, Ordered, Option-cases,
}
use argus_observability.Prelude.Text.{Text, text_eq, text_eq_iff}
use argus_observability.Prelude.Sort.{
  sort_by, IsPreorder, sort_by-Ordered, Has-sort_by, Has-of_sort_by,
}
use argus_observability.Api.Types.{WorkloadSnapshot}
use argus_observability.Topology.Build.{ServiceView}
use argus_observability.Topology.Rank.{pick_service, hotter, busiest_workload}

abbrev pub IsPicked : List ServiceView → Text → ServiceView → Type 0
IsPicked services focus s =
    Has s services
    × ((s.id ≡ focus) ⊎ (All (λ v. v.id ≢ focus) services × (first services ≡ some s)))

-- The focus picks a service unless there is none: the one of that id, or the first of the list where
-- no service has that id.
pub pick_service-IsPicked :
    (services : List ServiceView) (focus : Text)
    → services ≢ []
    → (s : ServiceView) × (pick_service services focus ≡ some s) × IsPicked services focus s
unfolding pick_service
pick_service-IsPicked [] focus h = absurd (h refl)
pick_service-IsPicked (s ∷ rest) focus h =
    elim (Option-cases (find (λ v. text_eq v.id focus) (s ∷ rest))) [
      | inl e ↦ (
        s,
        rw e,
        (
          here refl,
          inr (
            All-imp (λ v n q. let t = (text_eq_iff v.id focus).1 q in cc) (s ∷ rest)
                (find-none _ (s ∷ rest) e),
            refl,
          ),
        ),
      )
      | inr (v, e) ↦
          let (m, t) = find-some _ (s ∷ rest) e in
          (v, rw e, (m, inl ((text_eq_iff v.id focus).0 t)))
    ]

hotter-IsPreorder : IsPreorder hotter
hotter-IsPreorder = record { total = λ a b. ground arith; trans = λ a b c p q. ground arith }

head_hottest :
    (sorted : List WorkloadSnapshot) (w : WorkloadSnapshot)
    → Ordered (λ a b. hotter a b ≡ true) sorted
    → first sorted ≡ some w
    → Has w sorted × All (λ v. v.cpu_usage ≤ w.cpu_usage) sorted
head_hottest [] w o h = cc
head_hottest (x ∷ xs) w (p, o) h =
    let e : x ≡ w = cc in
    subst (λ v. Has v (x ∷ xs) × All (λ u. u.cpu_usage ≤ v.cpu_usage) (x ∷ xs)) e
      (here refl, (omega arith, All-imp (λ u e. ground arith) xs p))

first-eq-none : (l : List WorkloadSnapshot) → first l ≡ none → l ≡ []
first-eq-none [] h = refl
first-eq-none (x ∷ xs) h = cc

sorted-eq-nil : (l : List WorkloadSnapshot) → sort_by hotter l ≡ [] → l ≡ []
sorted-eq-nil [] h = refl
sorted-eq-nil (x ∷ xs) h =
    let m : Has x (sort_by hotter (x ∷ xs)) = Has-sort_by hotter (here refl) in
    not_in_nil (rw h at m)
  where
    not_in_nil : Has x [] → x ∷ xs ≡ []
    not_in_nil n = elim n [ ]

-- `busiestWorkload` answers a workload of the list whose CPU usage no other exceeds, and `null` only
-- for the empty list.
pub busiest_workload_lem :
    (workloads : List WorkloadSnapshot)
    → ((busiest_workload workloads ≡ none) ↔ (workloads ≡ []))
      × ((w : WorkloadSnapshot)
          → busiest_workload workloads ≡ some w
          → Has w workloads × All (λ v. v.cpu_usage ≤ w.cpu_usage) workloads)
unfolding busiest_workload sort_by
busiest_workload_lem workloads = (
  (λ h. sorted-eq-nil workloads (first-eq-none (sort_by hotter workloads) h), λ e. rw e),
  λ w h.
      let (m, hottest) =
        head_hottest (sort_by hotter workloads) w
          (sort_by-Ordered hotter hotter-IsPreorder workloads) h in
      (
        Has-of_sort_by hotter workloads m,
        All-of_Has _ workloads
            (λ v n. All-at (λ u. u.cpu_usage ≤ w.cpu_usage) (Has-sort_by hotter n) hottest),
      ),
)
