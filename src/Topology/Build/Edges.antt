-- ===== src/Topology/Build/Edges.antt =====
-- The edges of the views: none is lost and none is shown twice, and the busiest stand first.
use argus_observability.Prelude.{
  ℕ, suc, ◌+◌, ◌≤◌, Bool, true, false, ◌||◌, ◌&&◌, if◌then◌else◌, List, [], ◌∷◌, map, ◌≡◌, refl,
  ◌∙◌, arith, ap, ap₂, length, filter, Ordered, All, All-of_Has, any-of_Has, Ordered-imp,
  All-map_of_forall,
}
use argus_observability.Prelude.Text.{Text, text_eq, occurs, text_eq_refl}
use argus_observability.Prelude.Sort.{
  sort_by, insert_by, IsPreorder, sort_by-Ordered, length-sort_by,
}
use argus_observability.Api.Types.{TopologyEdge, TopologyGraph}
use argus_observability.Topology.Build.{
  TopologySignals, EdgeView, ServiceView, edges_of, ids_of, busier, view_of, upstream_of,
  downstream_of, build_service, build_services,
}
use argus_observability.Topology.Build.Ids.{is_end, occurs-ids_of}

abbrev pub total_of {ℓ} : {A : Type ℓ} → (A → ℕ) → List A → ℕ
total_of f [] = 0
total_of f (x ∷ xs) = f x + total_of f xs

length-map {ℓ κ} :
    {A : Type ℓ} {B : Type κ} (f : A → B) (xs : List A) → length (map f xs) ≡ length xs
length-map f [] = refl
length-map f (x ∷ xs) = ap suc (length-map f xs)

-- The edges at `id`, where `end` picks the end of an edge.
abbrev at_id : (TopologyEdge → Text) → List TopologyEdge → Text → ℕ
at_id end edges id = length (filter (λ e. text_eq (end e) id) edges)

length-upstream_of :
    (id : Text) (edges : List TopologyEdge)
    → length (upstream_of id edges) ≡ at_id (λ e. e.target) edges id
unfolding upstream_of
length-upstream_of id edges =
    length-sort_by busier _ ∙ length-map _ (filter (λ e. text_eq e.target id) edges)

length-downstream_of :
    (id : Text) (edges : List TopologyEdge)
    → length (downstream_of id edges) ≡ at_id (λ e. e.source) edges id
unfolding downstream_of
length-downstream_of id edges =
    length-sort_by busier _ ∙ length-map _ (filter (λ e. text_eq e.source id) edges)

at_id-nil : (end : TopologyEdge → Text) (ids : List Text) → total_of (at_id end []) ids ≡ 0
unfolding filter
at_id-nil end [] = refl
at_id-nil end (id ∷ ids) = omega (arith, at_id-nil end ids)

at_id-cons :
    (end : TopologyEdge → Text) (edge : TopologyEdge) (edges : List TopologyEdge) (ids : List Text)
    → total_of (at_id end (edge ∷ edges)) ids
      ≡ occurs (end edge) ids + total_of (at_id end edges) ids
unfolding filter occurs
at_id-cons end edge edges [] = refl
at_id-cons end edge edges (id ∷ ids) = ground (arith, at_id-cons end edge edges ids)

-- Where each edge has its end once among the ids, the ids share the edges out.
at_id-total :
    (end : TopologyEdge → Text) (ids : List Text) (edges : List TopologyEdge)
    → All (λ e. occurs (end e) ids ≡ 1) edges
    → total_of (at_id end edges) ids ≡ length edges
at_id-total end ids [] h = at_id-nil end ids
at_id-total end ids (edge ∷ edges) (p, h) =
    omega (arith, at_id-cons end edge edges ids, at_id-total end ids edges h)

or_true_right : (a : Bool) → (a || true) ≡ true
or_true_right true = refl
or_true_right false = refl

or_right : (a b : Bool) → b ≡ true → (a || b) ≡ true
or_right true b h = refl
or_right false b h = h

target_once :
    (graph : TopologyGraph) → All (λ e. occurs e.target (ids_of graph) ≡ 1) (edges_of graph)
target_once graph = All-of_Has _ (edges_of graph) λ e m.
    let itself = or_right (text_eq e.target e.source) _ (text_eq_refl e.target) in
    let named = any-of_Has (is_end e.target) m itself in
    occurs-ids_of graph e.target ∙ rw (named, or_true_right)

source_once :
    (graph : TopologyGraph) → All (λ e. occurs e.source (ids_of graph) ≡ 1) (edges_of graph)
source_once graph = All-of_Has _ (edges_of graph) λ e m.
    let itself : is_end e.source e ≡ true = rw (text_eq_refl e.source) in
    let named = any-of_Has (is_end e.source) m itself in
    occurs-ids_of graph e.source ∙ rw (named, or_true_right)

total_views :
    (graph : TopologyGraph) (signals : TopologySignals) (f : ServiceView → ℕ) (g : Text → ℕ)
    → ((id : Text) → f (build_service graph signals id) ≡ g id)
    → (ids : List Text) → total_of f (map (build_service graph signals) ids) ≡ total_of g ids
total_views graph signals f g h [] = refl
total_views graph signals f g h (id ∷ ids) = ap₂ ◌+◌ (h id) (total_views graph signals f g h ids)

upstream_eq :
    (graph : TopologyGraph) (signals : TopologySignals) (id : Text)
    → length (build_service graph signals id).upstream ≡ at_id (λ e. e.target) (edges_of graph) id
unfolding build_service
upstream_eq graph signals id = length-upstream_of id (edges_of graph)

downstream_eq :
    (graph : TopologyGraph) (signals : TopologySignals) (id : Text)
    → length (build_service graph signals id).downstream ≡ at_id (λ e. e.source) (edges_of graph) id
unfolding build_service
downstream_eq graph signals id = length-downstream_of id (edges_of graph)

-- How an edge is shown to a service, where `other` is the name at its other end.
abbrev pub seen_as : Text → TopologyEdge → EdgeView
seen_as other e = record {
  other = other;
  kind = e.kind;
  count = e.count;
  origin = e.origin;
  port = e.port;
}

count-insert_by :
    (p : EdgeView → Bool) (v : EdgeView) (views : List EdgeView)
    → length (filter p (insert_by busier v views))
      ≡ (if p v then 1 else 0) + length (filter p views)
unfolding insert_by filter
count-insert_by p v [] = ground arith
count-insert_by p v (w ∷ views) = ground (arith, count-insert_by p v views)

count-sort_by :
    (p : EdgeView → Bool) (views : List EdgeView)
    → length (filter p (sort_by busier views)) ≡ length (filter p views)
unfolding sort_by filter
count-sort_by p [] = refl
count-sort_by p (v ∷ views) =
    ground (arith, count-insert_by p v (sort_by busier views), count-sort_by p views)

-- The edges among `edges` that have the test at `id` and are shown as a view with the property.
abbrev pub edges_seen :
    (TopologyEdge → Bool) → (TopologyEdge → EdgeView) → (EdgeView → Bool) → List TopologyEdge → ℕ
edges_seen at view p edges = length (filter (λ e. at e && p (view e)) edges)

count-map :
    (at : TopologyEdge → Bool) (view : TopologyEdge → EdgeView) (p : EdgeView → Bool)
    (edges : List TopologyEdge)
    → length (filter p (map view (filter at edges))) ≡ edges_seen at view p edges
unfolding filter
count-map at view p [] = refl
count-map at view p (e ∷ edges) = ground (arith, count-map at view p edges)

-- What a view lists of the edges with the property: its callers are the edges that end at it, each shown with its
-- source, and its dependencies the edges that start at it, each shown with its target.
abbrev pub ListsEdges : (EdgeView → Bool) → List TopologyEdge → ServiceView → Type 0
ListsEdges p edges s =
    (length (filter p s.upstream)
      ≡ edges_seen (λ e. text_eq e.target s.id) (λ e. seen_as e.source e) p edges)
    × (length (filter p s.downstream)
        ≡ edges_seen (λ e. text_eq e.source s.id) (λ e. seen_as e.target e) p edges)

build_service-ListsEdges :
    (graph : TopologyGraph) (signals : TopologySignals) (p : EdgeView → Bool) (id : Text)
    → ListsEdges p (edges_of graph) (build_service graph signals id)
unfolding build_service upstream_of downstream_of
build_service-ListsEdges graph signals p id = (
  count-sort_by p _
      ∙ count-map (λ e. text_eq e.target id) (view_of (λ e. e.source)) p (edges_of graph),
  count-sort_by p _
      ∙ count-map (λ e. text_eq e.source id) (view_of (λ e. e.target)) p (edges_of graph),
)

-- Whatever property of shown edges is counted, each view has as many callers with it as edges of the graph end at the
-- view and have it when shown with their source, and as many dependencies with it as edges start at the view and have
-- it when shown with their target. Over all views, the callers are as many as the edges, and so are the dependencies:
-- no edge is lost and none is shown twice.
pub build_services-edges :
    (graph : TopologyGraph) (signals : TopologySignals) (p : EdgeView → Bool)
    → All (ListsEdges p (edges_of graph)) (build_services graph signals)
      × (total_of (λ s. length s.upstream) (build_services graph signals) ≡ length (edges_of graph))
      × (total_of (λ s. length s.downstream) (build_services graph signals)
          ≡ length (edges_of graph))
unfolding build_services
build_services-edges graph signals p = (
  All-map_of_forall _ (build_service graph signals) (build_service-ListsEdges graph signals p)
      (ids_of graph),
  total_views graph signals _ _ (upstream_eq graph signals) (ids_of graph)
      ∙ at_id-total _ (ids_of graph) (edges_of graph) (target_once graph),
  total_views graph signals _ _ (downstream_eq graph signals) (ids_of graph)
      ∙ at_id-total _ (ids_of graph) (edges_of graph) (source_once graph),
)

busier-IsPreorder : IsPreorder busier
busier-IsPreorder = record { total = λ a b. ground arith; trans = λ a b c p q. ground arith }

abbrev pub BusiestFirst : List EdgeView → Type 0
BusiestFirst = Ordered (λ a b. b.count ≤ a.count)

sorted_views : (views : List EdgeView) → BusiestFirst (sort_by busier views)
sorted_views views =
    Ordered-imp (λ a b e. ground arith) _ (sort_by-Ordered busier busier-IsPreorder views)

view_sorted :
    (graph : TopologyGraph) (signals : TopologySignals) (id : Text)
    → BusiestFirst (build_service graph signals id).upstream
      × BusiestFirst (build_service graph signals id).downstream
unfolding build_service upstream_of downstream_of
view_sorted graph signals id = (
  sorted_views (map (view_of (λ e. e.source)) (filter (λ e. text_eq e.target id) (edges_of graph))),
  sorted_views (map (view_of (λ e. e.target)) (filter (λ e. text_eq e.source id) (edges_of graph))),
)

-- In each view the callers and the dependencies stand in the order of their counts, greatest first.
pub build_services-BusiestFirst :
    (graph : TopologyGraph) (signals : TopologySignals)
    → All (λ s. BusiestFirst s.upstream × BusiestFirst s.downstream) (build_services graph signals)
unfolding build_services
build_services-BusiestFirst graph signals =
    All-map_of_forall _ (build_service graph signals) (view_sorted graph signals) (ids_of graph)
