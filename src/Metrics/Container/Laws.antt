-- ===== src/Metrics/Container/Laws.antt =====
-- The container that the view chooses.
use argus_observability.Prelude.{
  Bool, true, false, ◌==◌, ◌<◌, ◌≤◌, ◌⊎◌, ◌↔◌, Option, none, some, List, [], ◌∷◌, ◌≡◌, refl, sym,
  ap, ◌∙◌, arith, All, All-at, All-of_Has, Has, here, there, Has-filter, Has-of_filter, Ordered,
  first, filter, map, length, Bool-cases, inl, inr,
}
use argus_observability.Prelude.Text.{
  Text, lit, text_eq, text_eq_refl, is_empty, has_text, eq_of_text_eq,
}
use argus_observability.Prelude.Sort.{
  IsPreorder, sort_by, sort_by-Ordered, Has-sort_by, Has-of_sort_by,
}
use argus_observability.Query.{Params, patch, query_value}
use argus_observability.Query.Laws.{get-patch, read_written}
use argus_observability.Api.Types.{WorkloadSnapshot}
use argus_observability.Traces.{text_le}
use argus_observability.Metrics.Container.{
  in_members, container_names, more_busy, busiest_of, by_service, chosen_container,
  choose_container,
}

more_busy-IsPreorder : IsPreorder more_busy
unfolding more_busy
more_busy-IsPreorder = record { total = λ a b. ground arith; trans = λ a b c p q. ground arith }

has_text-of_Has : {s : Text} {xs : List Text} → Has s xs → has_text xs s ≡ true
unfolding has_text
has_text-of_Has (here {x} {xs} e) = rw e (ground (arith, text_eq_refl x))
has_text-of_Has (there {x} {xs} m) = ground (arith, has_text-of_Has m)

Has-of_has_text : (xs : List Text) (s : Text) → has_text xs s ≡ true → Has s xs
unfolding has_text
Has-of_has_text [] s h = absurd cc
Has-of_has_text (x ∷ xs) s h = elim (Bool-cases (text_eq x s)) [
  | inl e ↦ here (sym (eq_of_text_eq x s e))
  | inr e ↦ there (Has-of_has_text xs s (ground arith))
]

-- A workload of the group with the name.
abbrev Named : Option (List Text) → List WorkloadSnapshot → Text → Type 0
Named members workloads name =
    (w : WorkloadSnapshot) × Has w workloads × (in_members members w ≡ true) × (name ≡ w.container)

Has-of_map :
    (name : Text) (workloads : List WorkloadSnapshot)
    → Has name (map (λ w. w.container) workloads)
    → (w : WorkloadSnapshot) × Has w workloads × (name ≡ w.container)
Has-of_map name [] m = elim m [ ]
Has-of_map name (w ∷ workloads) (here e) = (w, here refl, e)
Has-of_map name (w ∷ workloads) (there m) =
    let (u, n, e) = Has-of_map name workloads m in (u, there n, e)

Has-map :
    {w : WorkloadSnapshot} {workloads : List WorkloadSnapshot}
    → Has w workloads
    → Has w.container (map (λ u. u.container) workloads)
Has-map (here e) = here (ap (λ u. u.container) e)
Has-map (there m) = there (Has-map m)

Named-of_Has :
    (members : Option (List Text)) (workloads : List WorkloadSnapshot) (name : Text)
    → Has name (container_names members workloads)
    → Named members workloads name
unfolding container_names
Named-of_Has members workloads name m =
    let kept = filter (in_members members) workloads in
    let (w, n, e) = Has-of_map name kept (Has-of_sort_by text_le _ m) in
    let (o, t) = Has-of_filter (in_members members) workloads n in (w, o, t, e)

Has-of_Named :
    (members : Option (List Text)) {w : WorkloadSnapshot} (workloads : List WorkloadSnapshot)
    → Has w workloads
    → in_members members w ≡ true
    → Has w.container (container_names members workloads)
unfolding container_names
Has-of_Named members workloads m t =
    Has-sort_by text_le (Has-map (Has-filter (in_members members) m t))

in_members-same :
    (members : Option (List Text)) (v w : WorkloadSnapshot)
    → v.container ≡ w.container
    → in_members members v ≡ in_members members w
in_members-same none v w e = refl
in_members-same (some ms) v w e = ap (has_text ms) e

-- What the view chooses, by the comparison of the code.
abbrev IsTop : Option (List Text) → List WorkloadSnapshot → WorkloadSnapshot → Type 0
IsTop members workloads w =
    Has w workloads
    × (in_members members w ≡ true)
    × All (λ v. more_busy w v ≡ true) (filter (in_members members) workloads)

first_busier :
    (sorted : List WorkloadSnapshot) {v : WorkloadSnapshot}
    → Ordered (λ a b. more_busy a b ≡ true) sorted
    → Has v sorted
    → (w : WorkloadSnapshot) × (first sorted ≡ some w)
      × Has w sorted
      × All (λ u. more_busy w u ≡ true) sorted
unfolding more_busy
first_busier [] o m = elim m [ ]
first_busier (x ∷ xs) (p, o) m = (x, refl, here refl, (ground arith, p))

busiest_of-IsTop :
    (members : Option (List Text)) (workloads : List WorkloadSnapshot) {name : Text}
    → Has name (container_names members workloads)
    → (w : WorkloadSnapshot) × (busiest_of (container_names members workloads) workloads ≡ some w)
      × IsTop members workloads w
unfolding busiest_of
busiest_of-IsTop members workloads {name} m =
    let names = container_names members workloads in
    let listed : WorkloadSnapshot → Bool = λ w. has_text names w.container in
    let (u, n, t, e) = Named-of_Has members workloads name m in
    let n' = Has-filter listed n (has_text-of_Has (Has-of_Named members workloads n t)) in
    let sorted = sort_by more_busy (filter listed workloads) in
    let (w, h, k, b) =
      first_busier sorted (sort_by-Ordered more_busy more_busy-IsPreorder _)
        (Has-sort_by more_busy n') in
    let (k', l) = Has-of_filter listed workloads (Has-of_sort_by more_busy _ k) in
    let (z, zn, zt, ze) =
      Named-of_Has members workloads w.container (Has-of_has_text names w.container l) in
    let top = All-of_Has _ (filter (in_members members) workloads) (λ v q.
      let (q', qt) = Has-of_filter (in_members members) workloads q in
      All-at (λ x. more_busy w x ≡ true)
        (Has-sort_by more_busy
          (Has-filter listed q' (has_text-of_Has (Has-of_Named members workloads q' qt))))
        b) in
    (w, h, (k', in_members-same members w z ze ∙ zt, top))

some_length : {name : Text} (names : List Text) → Has name names → (length names == 0) ≡ false
some_length [] m = elim m [ ]
some_length (x ∷ xs) m = ground arith

by_service-none :
    (service : Text) (workloads : List WorkloadSnapshot)
    → is_empty service ≡ true
    → by_service service workloads ≡ none
unfolding by_service
by_service-none service workloads s = rw s refl

chosen_container-some :
    (service : Text) (names : List Text) (workloads : List WorkloadSnapshot) {w : WorkloadSnapshot}
    → is_empty service ≡ true
    → busiest_of names workloads ≡ some w
    → chosen_container service names workloads ≡ some w.container
unfolding chosen_container
chosen_container-some service names workloads s h =
    rw (by_service-none service workloads s, h, chosen_container) refl

-- What the URL reads for a container after a choice.
query_value-chosen :
    (name : Text) (url : Params)
    → query_value
        (lit "container")
        []
        (patch ((lit "container", some name) ∷ (lit "service", none) ∷ []) [] url)
      ≡ name
unfolding query_value text_eq lit
query_value-chosen name url =
    rw
      (
        get-patch (lit "container") ((lit "container", some name) ∷ (lit "service", none) ∷ []) []
            url,
        read_written (lit "container") name [],
      )
      (ground arith)

-- The container of the workload is in the group; without a group each one is.
abbrev pub IsMember : Option (List Text) → WorkloadSnapshot → Type 0
IsMember none w = Unit
IsMember (some members) w = Has w.container members

-- `v` uses less CPU than `w`, or as much CPU and no more memory.
abbrev pub UsesNoMore : WorkloadSnapshot → WorkloadSnapshot → Type 0
UsesNoMore v w =
    (v.cpu_usage < w.cpu_usage) ⊎ ((v.cpu_usage ≡ w.cpu_usage) × (v.memory_usage ≤ w.memory_usage))

-- A busiest workload of the group: each other one uses no more or is not in the group.
abbrev pub IsBusiest : Option (List Text) → List WorkloadSnapshot → WorkloadSnapshot → Type 0
IsBusiest members workloads w =
    Has w workloads
    × IsMember members w
    × All (λ v. UsesNoMore v w ⊎ (IsMember members v → ⊥)) workloads

in_members-IsMember :
    (members : Option (List Text)) (w : WorkloadSnapshot)
    → (in_members members w ≡ true) ↔ IsMember members w
in_members-IsMember none w = (λ e. tt, λ m. refl)
in_members-IsMember (some members) w =
    (λ e. Has-of_has_text members w.container e, λ m. has_text-of_Has m)

UsesNoMore-of_more_busy : (v w : WorkloadSnapshot) → more_busy w v ≡ true → UsesNoMore v w
unfolding more_busy
UsesNoMore-of_more_busy v w h = ground arith

IsBusiest-of_IsTop :
    (members : Option (List Text)) (workloads : List WorkloadSnapshot) (w : WorkloadSnapshot)
    → IsTop members workloads w
    → IsBusiest members workloads w
IsBusiest-of_IsTop members workloads w (m, t, top) = (
  m,
  (in_members-IsMember members w).0 t,
  All-of_Has _ workloads λ v n. elim (Bool-cases (in_members members v)) [
    | inl e ↦ inl (
        UsesNoMore-of_more_busy v w
          (All-at (λ x. more_busy w x ≡ true) (Has-filter (in_members members) n e) top))
    | inr e ↦ inr (λ k. let e' = (in_members-IsMember members v).1 k in cc)
  ],
)

-- Where the URL has neither a container nor a service and some workload is in the group, the view chooses the
-- container of a workload of the group than which no other one of the group uses more CPU, nor as much CPU and more
-- memory.
pub choose_container_lem :
    (members : Option (List Text)) (workloads : List WorkloadSnapshot) (url : Params)
    {u : WorkloadSnapshot}
    → is_empty (query_value (lit "container") [] url) ≡ true
    → is_empty (query_value (lit "service") [] url) ≡ true
    → Has u workloads
    → IsMember members u
    → (w : WorkloadSnapshot) × IsBusiest members workloads w
      × (query_value (lit "container") [] (choose_container members workloads url) ≡ w.container)
unfolding choose_container
choose_container_lem members workloads url {u} c s n g =
    let names = container_names members workloads in
    let m = Has-of_Named members workloads n ((in_members-IsMember members u).1 g) in
    let (w, h, b) = busiest_of-IsTop members workloads m in
    (
      w,
      IsBusiest-of_IsTop members workloads w b,
      rw (c, some_length names m, chosen_container-some _ names workloads s h)
          (query_value-chosen w.container url),
    )
