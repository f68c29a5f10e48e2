-- ===== src/Observability/SavedViews/Refines.antt =====
-- The saved views against a map from ids to views.
use argus_observability.Prelude.{
  ◌≤◌, not, Option, none, some, List, [], ◌∷◌, take, filter, find, length, ◌≡◌, refl, arith,
  if◌then◌else◌, take_all, length-filter, length-take, Bool-cases, inl, inr,
}
use argus_observability.Prelude.Text.{Text, text_eq, text_eq_iff}
use argus_observability.Observability.SavedViews.{
  SavedView, Stored, IsJson, load_saved_views, without, save_view, delete_view,
}
use argus_observability.Observability.SavedViews.Laws.{load-stringify}

-- An edit of the saved views.
pub data Edit : Type 0 where
  saves_view : SavedView → Edit
  deletes_view : Text → Edit

-- What the edits promise: a map from ids to views. The last edit stands first.
abbrev pub replay : List Edit → Text → Option SavedView
replay [] id = none
replay (saves_view v ∷ edits) id = if text_eq v.id id then some v else replay edits id
replay (deletes_view gone ∷ edits) id = if text_eq gone id then none else replay edits id

abbrev pub view_with : Text → List SavedView → Option SavedView
view_with id views = find (λ v. text_eq v.id id) views

view_with_nil : (id : Text) → view_with id [] ≡ none
unfolding find
view_with_nil id = refl

view_with-cons :
    (id : Text) (v : SavedView) (views : List SavedView)
    → view_with id (v ∷ views) ≡ (if text_eq v.id id then some v else view_with id views)
unfolding find
view_with-cons id v views = refl

view_with-filter :
    (id gone : Text) (views : List SavedView)
    → view_with id (filter (λ v. not (text_eq v.id gone)) views)
      ≡ (if text_eq gone id then none else view_with id views)
unfolding find filter
view_with-filter id gone [] = ground arith
view_with-filter id gone (v ∷ views) = ground (
  arith,
  view_with-filter id gone views,
  text_eq_iff v.id gone,
  text_eq_iff v.id id,
  text_eq_iff gone id,
)

module _ {Raw : Type 0} (json : Stored Raw) where
  -- The store after the edits, from a store without the key.
  abbrev pub run : List Edit → Option Raw
  run [] = none
  run (saves_view v ∷ edits) = save_view json v (run edits)
  run (deletes_view id ∷ edits) = delete_view json id (run edits)

module _ {Raw : Type 0} (json : Stored Raw) (law : IsJson json) where
  load-none : load_saved_views json none ≡ []
  unfolding load_saved_views
  load-none = refl

  load-save_view :
      (v : SavedView) (store : Option Raw)
      → load_saved_views json (save_view json v store)
        ≡ take 20 (v ∷ without json v.id (load_saved_views json store))
  unfolding save_view
  load-save_view v store =
      load-stringify json law (take 20 (v ∷ without json v.id (load_saved_views json store)))

  load-delete_view :
      (id : Text) (store : Option Raw)
      → load_saved_views json (delete_view json id store)
        ≡ without json id (load_saved_views json store)
  unfolding delete_view
  load-delete_view id store =
      load-stringify json law (without json id (load_saved_views json store))

  few : (edits : List Edit) → length (load_saved_views json (run json edits)) ≤ length edits
  unfolding without
  few [] = rw load-none (omega arith)
  few (saves_view v ∷ edits) =
      let views = load_saved_views json (run json edits) in
      let rest = filter (λ u. not (text_eq u.id v.id)) views in
      let less = few edits in
      rw (load-save_view v (run json edits)) (
        omega
          (arith, length-take 20 (v ∷ rest), length-filter (λ u. not (text_eq u.id v.id)) views))
  few (deletes_view id ∷ edits) =
      let views = load_saved_views json (run json edits) in
      let less = few edits in
      rw (load-delete_view id (run json edits))
        (omega (arith, length-filter (λ u. not (text_eq u.id id)) views))

  -- While there were at most twenty edits, the store is the map of the edits: it holds under each id the view that was
  -- saved last with that id, unless it was deleted since.
  pub run-replay :
      (edits : List Edit) (id : Text)
      → length edits ≤ 20
      → view_with id (load_saved_views json (run json edits)) ≡ replay edits id
  unfolding without
  run-replay [] id h = rw load-none (view_with_nil id)
  run-replay (saves_view v ∷ edits) id h =
      let views = load_saved_views json (run json edits) in
      let rest = filter (λ u. not (text_eq u.id v.id)) views in
      let all : take 20 (v ∷ rest) ≡ v ∷ rest =
        take_all 20 (v ∷ rest)
          (omega (arith, few edits, length-filter (λ u. not (text_eq u.id v.id)) views)) in
      rw
        (
          load-save_view v (run json edits),
          all,
          view_with-cons id v rest,
          view_with-filter id v.id views,
        )
        (elim (Bool-cases (text_eq v.id id)) [
          | inl e ↦ rw e refl
          | inr e ↦ rw e (run-replay edits id (omega arith))
        ])
  run-replay (deletes_view gone ∷ edits) id h =
      rw
        (
          load-delete_view gone (run json edits),
          view_with-filter id gone (load_saved_views json (run json edits)),
          run-replay edits id (omega arith),
        )
        refl
