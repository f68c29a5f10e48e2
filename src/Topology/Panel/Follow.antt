-- ===== src/Topology/Panel/Follow.antt =====
-- A click on an edge of the path leads to the service at its other end.
mod Tests
use argus_observability.Prelude.{
  ℕ, ◌+◌, ◌≤◌, ◌<◌, Bool, true, false, not, ◌||◌, ◌&&◌, Option, none, some, List, [], ◌∷◌, map, any,
  any-of_Has, filter, ◌≡◌, ◌≢◌, ◌⊎◌, inl, inr, refl, sym, ap, subst, ◌∙◌, arith, Has, here, there,
  Has-of_filter, Bool-cases, if◌then◌else◌, or_default,
}
use argus_observability.Prelude.Text.{
  Text, lit, text_eq, text_eq_refl, text_eq_iff, is_empty, occurs,
}
use argus_observability.Prelude.Sort.{sort_by, Has-sort_by, Has-of_sort_by}
use argus_observability.Query.{Params, query_value, set_query}
use argus_observability.Query.Laws.{query_value-set_query}
use argus_observability.Api.Types.{TopologyEdge, TopologyGraph}
use argus_observability.Topology.Build.{
  EdgeView, ServiceView, TopologySignals, busier, edges_of, nodes_of, ids_of, view_of, upstream_of,
  downstream_of, build_service, build_services,
}
use argus_observability.Topology.Build.Ids.{is_end, mentions, occurs-build_services}
use argus_observability.Topology.Rank.{rank_services, before}
use argus_observability.Topology.Load.{PageState}
use argus_observability.Topology.Panel.{Choices, shown_of}
use argus_observability.Topology.Panel.Laws.{selected_service_lem}
use argus_observability.Topology.Panel.Detail.{choices_of, select_service}

module _ {ℓ κ} {A : Type ℓ} {B : Type κ} (f : A → B) where
  Has-of_map : {b : B} (xs : List A) → Has b (map f xs) → (a : A) × Has a xs × (b ≡ f a)
  Has-of_map [] m = elim m [ ]
  Has-of_map (x ∷ xs) (here e) = (x, here refl, e)
  Has-of_map (x ∷ xs) (there m) = let (a, n, e) = Has-of_map xs m in (a, there n, e)

Has-of_occurs : (x : Text) (xs : List Text) → 0 < occurs x xs → Has x xs
unfolding occurs
Has-of_occurs x [] h = absurd (omega arith)
Has-of_occurs x (y ∷ ys) h = elim (Bool-cases (text_eq x y)) [
  | inl e ↦ here ((text_eq_iff x y).0 e)
  | inr e ↦ there (Has-of_occurs x ys (let k = rw e at h in omega arith))
]

-- A service of the graph for each name that it mentions.
service_of :
    (graph : TopologyGraph) (signals : TopologySignals) (x : Text)
    → mentions graph x ≡ true
    → (s : ServiceView) × Has s (build_services graph signals) × (x ≡ s.id)
service_of graph signals x h =
    Has-of_map (λ (s : ServiceView). s.id) (build_services graph signals)
      (Has-of_occurs x _ (let o = rw h at (occurs-build_services graph signals x) in omega arith))

mentions_source :
    (graph : TopologyGraph) (e : TopologyEdge)
    → Has e (edges_of graph)
    → mentions graph e.source ≡ true
mentions_source graph e m =
    let h : any (is_end e.source) (edges_of graph) ≡ true =
      any-of_Has (is_end e.source) m (ground (arith, text_eq_refl e.source)) in
    ground arith

mentions_target :
    (graph : TopologyGraph) (e : TopologyEdge)
    → Has e (edges_of graph)
    → mentions graph e.target ≡ true
mentions_target graph e m =
    let h : any (is_end e.target) (edges_of graph) ≡ true =
      any-of_Has (is_end e.target) m (ground (arith, text_eq_refl e.target)) in
    ground arith

-- An end of the edges that the graph selects for a view.
other_mentioned :
    (graph : TopologyGraph) (other : TopologyEdge → Text) (q : TopologyEdge → Bool) {v : EdgeView}
    → ((e : TopologyEdge) → Has e (edges_of graph) → mentions graph (other e) ≡ true)
    → Has v (sort_by busier (map (view_of other) (filter q (edges_of graph))))
    → mentions graph v.other ≡ true
other_mentioned graph other q {v} h m =
    let (e, n, same) = Has-of_map (view_of other) _ (Has-of_sort_by busier _ m) in
    let (k, t) = Has-of_filter q (edges_of graph) n in
    let o : v.other ≡ other e = ap (λ u. u.other) same in rw o (h e k)

upstream_mentioned :
    (graph : TopologyGraph) (signals : TopologySignals) (id : Text) {v : EdgeView}
    → Has v (build_service graph signals id).upstream
    → mentions graph v.other ≡ true
unfolding build_service upstream_of
upstream_mentioned graph signals id {v} m =
    other_mentioned graph (λ e. e.source) (λ e. text_eq e.target id) (mentions_source graph) m

downstream_mentioned :
    (graph : TopologyGraph) (signals : TopologySignals) (id : Text) {v : EdgeView}
    → Has v (build_service graph signals id).downstream
    → mentions graph v.other ≡ true
unfolding build_service downstream_of
downstream_mentioned graph signals id {v} m =
    other_mentioned graph (λ e. e.target) (λ e. text_eq e.source id) (mentions_target graph) m

edge_mentioned :
    (graph : TopologyGraph) (signals : TopologySignals) {s : ServiceView} {v : EdgeView}
    → Has s (build_services graph signals)
    → Has v s.upstream ⊎ Has v s.downstream
    → mentions graph v.other ≡ true
unfolding build_services
edge_mentioned graph signals {s} {v} m e =
    let (id, n, same) = Has-of_map (build_service graph signals) (ids_of graph) m in
    elim e [
      | inl u ↦ upstream_mentioned graph signals id (subst (λ x. Has v x.upstream) same u)
      | inr d ↦ downstream_mentioned graph signals id (subst (λ x. Has v x.downstream) same d)
    ]

focus_selected :
    (id : Text) (url : Params)
    → is_empty id ≡ false
    → (choices_of (select_service id url)).focus ≡ id
unfolding choices_of select_service text_eq lit
focus_selected id url full =
    let (reads, others) = query_value-set_query (lit "focus") [] id (lit "q") url (λ e. cc) in
    reads ∙ rw full refl

Has-rank_services :
    (label_le : Text → Text → Bool) (services : List ServiceView) {s : ServiceView}
    → Has s services
    → Has s (rank_services label_le services)
unfolding rank_services
Has-rank_services label_le services m = Has-sort_by (before label_le) m

some_member : (services : List ServiceView) {s : ServiceView} → Has s services → services ≢ []
some_member [] m e = elim m [ ]
some_member (s ∷ services) m e = absurd cc

found :
    (services : List ServiceView) (x : Text) {s : ServiceView}
    → Has s services
    → x ≡ s.id
    → any (λ v. text_eq v.id x) services ≡ true
found services x {s} m e = any-of_Has (λ v. text_eq v.id x) m ((text_eq_iff s.id x).1 (sym e))

-- A click on an edge in the path of a service of the graph, where the name at the edge's other end is not empty,
-- selects the service whose id is that name, whatever else the URL holds.
pub select_service_lem :
    (label_le : Text → Text → Bool) (graph : TopologyGraph) (signals : TopologySignals)
    (page : PageState) (url : Params) {s : ServiceView} {v : EdgeView}
    → Has s (build_services graph signals)
    → Has v s.upstream ⊎ Has v s.downstream
    → is_empty v.other ≡ false
    → (next : ServiceView) × ((shown_of page
          (choices_of (select_service v.other url))
          (rank_services label_le (build_services graph signals))).selected
        ≡ some next)
      × Has next (rank_services label_le (build_services graph signals))
      × (next.id ≡ v.other)
select_service_lem label_le graph signals page url {s} {v} m e full =
    let ranked = rank_services label_le (build_services graph signals) in
    let choices = choices_of (select_service v.other url) in
    let focus = focus_selected v.other url full in
    let (t, n, same) = service_of graph signals v.other (edge_mentioned graph signals m e) in
    let k = Has-rank_services label_le (build_services graph signals) n in
    let (next, shown, listed, choice) =
      selected_service_lem page choices ranked (some_member ranked k) in
    elim choice [
      | inl f ↦ (next, shown, listed, f ∙ focus)
      | inr f ↦ (let g = found ranked choices.focus k (focus ∙ same) in absurd cc)
    ]
