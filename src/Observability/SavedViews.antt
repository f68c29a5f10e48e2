-- ===== src/Observability/SavedViews.antt =====
-- web/src/lib/observability.ts: the saved views. The store is what `localStorage` holds under the key; the JSON
-- of a list of views is a parameter, with what `JSON.parse` does to the text of `JSON.stringify`.
pub mod Laws
pub mod Refines
mod Tests
use argus_observability.Prelude.{
  ℕ, Bool, true, false, not, Option, none, some, List, [], ◌∷◌, take, filter, ◌≡◌, if◌then◌else◌,
}
use argus_observability.Prelude.Text.{Text, text_eq}

pub data ChartType : Type 0 where
  area line : ChartType

pub record SavedView : Type 0 where
  pub id : Text
  pub name : Text
  pub metric : Text
  pub containers : List Text
  pub since : Text
  pub chart_type : ChartType
  pub created_at : Text

-- The text of a stored list: the test for the empty text, `JSON.stringify`, and `JSON.parse`, `none` where it throws.
pub record Stored (Raw : Type 0) : Type 0 where
  pub is_empty : Raw → Bool
  pub stringify : List SavedView → Raw
  pub parse : Raw → Option (List SavedView)

-- What the panel relies on: a stored list is not the empty text, and it is read back as it was written.
pub record IsJson {Raw : Type 0} (json : Stored Raw) : Type 0 where
  pub stringify_full : (views : List SavedView) → json.is_empty (json.stringify views) ≡ false
  pub parse-stringify : (views : List SavedView) → json.parse (json.stringify views) ≡ some views

module _ {Raw : Type 0} (json : Stored Raw) where
  unfoldable pub load_saved_views : Option Raw → List SavedView
  load_saved_views none = []
  load_saved_views (some raw) =
      if json.is_empty raw then [] else elim (json.parse raw) [ none ↦ [] | some views ↦ views ]

  unfoldable pub without : Text → List SavedView → List SavedView
  without id views = filter (λ v. not (text_eq v.id id)) views

  unfoldable pub save_view : SavedView → Option Raw → Option Raw
  save_view view store =
      some (json.stringify (take 20 (view ∷ without view.id (load_saved_views store))))

  unfoldable pub delete_view : Text → Option Raw → Option Raw
  delete_view id store = some (json.stringify (without id (load_saved_views store)))

  -- A visit's edits of the store, which starts without the key.
  pub data Reachable : Option Raw → Type 0 where
    starts : Reachable none
    saves :
        (view : SavedView) {store : Option Raw} → Reachable store → Reachable (save_view view store)
    deletes : (id : Text) {store : Option Raw} → Reachable store → Reachable (delete_view id store)
