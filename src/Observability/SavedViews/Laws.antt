-- ===== src/Observability/SavedViews/Laws.antt =====
-- The saved views after any edits.
use argus_observability.Prelude.{
  ℕ, zero, suc, ◌≤◌, ◌<◌, Bool, false, not, Option, none, some, List, [], ◌∷◌, take, filter, ◌≡◌,
  refl, ap, arith, Ordered, All-imp, All-filter_test, All-filter, All-take, length, length-take,
  length-filter, not-eq_true, Has, here, there, Has-filter, Has-of_filter, ◌↔◌, take_all,
  Bool-cases, inl, inr,
}
use argus_observability.Prelude.Text.{Text, text_eq}
use argus_observability.Observability.SavedViews.{
  SavedView, Stored, IsJson, load_saved_views, without, save_view, delete_view, Reachable, starts,
  saves, deletes,
}

Ordered-filter {ℓ κ} :
    {A : Type ℓ} (R : A → A → Type κ) (q : A → Bool) (xs : List A)
    → Ordered R xs
    → Ordered R (filter q xs)
unfolding filter
Ordered-filter R q [] h = tt
Ordered-filter R q (x ∷ xs) (p, h) = elim (Bool-cases (q x)) [
  | inl e ↦ rw e (All-filter (R x) q xs p, Ordered-filter R q xs h)
  | inr e ↦ rw e (Ordered-filter R q xs h)
]

Ordered-take {ℓ κ} :
    {A : Type ℓ} (R : A → A → Type κ) (n : ℕ) (xs : List A) → Ordered R xs → Ordered R (take n xs)
unfolding take
Ordered-take R zero xs h = tt
Ordered-take R (suc n) [] h = tt
Ordered-take R (suc n) (x ∷ xs) (p, h) = (All-take (R x) n xs p, Ordered-take R n xs h)

-- Two views have different ids.
abbrev pub Differ : SavedView → SavedView → Type 0
Differ a b = text_eq b.id a.id ≡ false

-- At most twenty views, no two with one id.
abbrev pub IsTidy : List SavedView → Type 0
IsTidy views = (length views ≤ 20) × Ordered Differ views

module _ {Raw : Type 0} (json : Stored Raw) (law : IsJson json) where
  load-none : load_saved_views json none ≡ []
  unfolding load_saved_views
  load-none = refl

  pub load-stringify :
      (views : List SavedView) → load_saved_views json (some (json.stringify views)) ≡ views
  unfolding load_saved_views
  load-stringify views = rw (law.stringify_full views, law.parse-stringify views) refl

  save-IsTidy :
      (view : SavedView) (views : List SavedView)
      → IsTidy views
      → IsTidy (take 20 (view ∷ without json view.id views))
  unfolding without
  save-IsTidy view views (small, apart) =
      let rest = without json view.id views in
      (
        omega (arith, length-take 20 (view ∷ rest)),
        Ordered-take Differ 20 (view ∷ rest) (
          All-imp (λ v h. not-eq_true _ h) rest (All-filter_test _ views),
          Ordered-filter Differ _ views apart,
        ),
      )

  without-IsTidy :
      (id : Text) (views : List SavedView) → IsTidy views → IsTidy (without json id views)
  unfolding without
  without-IsTidy id views (small, apart) = (
    omega (arith, length-filter (λ v. not (text_eq v.id id)) views),
    Ordered-filter Differ _ views apart,
  )

  -- After any saving and deleting that starts from an empty store, at most twenty views are stored and no two of
  -- them share an id.
  pub Reachable-IsTidy :
      {store : Option Raw} → Reachable json store → IsTidy (load_saved_views json store)
  unfolding save_view delete_view
  Reachable-IsTidy starts = rw load-none (omega arith, tt)
  Reachable-IsTidy (saves view {store} r) =
      rw (load-stringify (take 20 (view ∷ without json view.id (load_saved_views json store))))
        (save-IsTidy view (load_saved_views json store) (Reachable-IsTidy r))
  Reachable-IsTidy (deletes id {store} r) =
      rw (load-stringify (without json id (load_saved_views json store)))
        (without-IsTidy id (load_saved_views json store) (Reachable-IsTidy r))

  -- While fewer than twenty views are stored, saving a view stores it and keeps each view of another id.
  pub save_view_lem :
      (store : Option Raw) (view other : SavedView)
      → length (load_saved_views json store) < 20
      → Differ view other
      → Has other (load_saved_views json store)
      → Has view (load_saved_views json (save_view json view store))
        × Has other (load_saved_views json (save_view json view store))
  unfolding save_view without
  save_view_lem store view other few apart m =
      let views = load_saved_views json store in
      let rest = filter (λ v. not (text_eq v.id view.id)) views in
      let kept : Has other rest = Has-filter (λ v. not (text_eq v.id view.id)) m (ap not apart) in
      let all : take 20 (view ∷ rest) ≡ view ∷ rest =
        take_all 20 (view ∷ rest)
          (omega (arith, length-filter (λ v. not (text_eq v.id view.id)) views)) in
      rw (load-stringify (take 20 (view ∷ rest)), all) (here refl, there kept)

  -- A view is stored after a deletion exactly if it was stored before and its id is not the deleted one.
  pub delete_view_lem :
      (store : Option Raw) (other : SavedView) (id : Text)
      → Has other (load_saved_views json (delete_view json id store))
        ↔ (Has other (load_saved_views json store) × (text_eq other.id id ≡ false))
  unfolding delete_view without
  delete_view_lem store other id =
      let views = load_saved_views json store in
      let keep : SavedView → Bool = λ v. not (text_eq v.id id) in
      rw (load-stringify (filter keep views)) (
        λ m. (let k = Has-of_filter keep views m in (k.0, not-eq_true _ k.1)),
        λ h. Has-filter keep h.0 (ap not h.1),
      )
