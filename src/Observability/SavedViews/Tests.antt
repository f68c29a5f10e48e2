-- ===== src/Observability/SavedViews/Tests.antt =====
-- Saved views kept as the list itself.
use argus_observability.Prelude.{
  false, Option, none, some, List, [], ◌∷◌, ◌≡◌, refl, arith, take, filter,
}
use argus_observability.Prelude.Text.{Text, lit, text_eq}
use argus_observability.Observability.SavedViews.{
  SavedView, area, Stored, IsJson, load_saved_views, save_view, delete_view, starts, saves, deletes,
  without,
}
use argus_observability.Observability.SavedViews.Laws.{IsTidy, Reachable-IsTidy}
use argus_observability.Observability.SavedViews.Refines.{
  saves_view, deletes_view, replay, run, view_with, run-replay,
}

abbrev plain : Stored (List SavedView)
plain = record { is_empty = λ raw. false; stringify = λ views. views; parse = λ raw. some raw }

plain-IsJson : IsJson plain
plain-IsJson = record { stringify_full = λ views. refl; parse-stringify = λ views. refl }

abbrev view : Text → SavedView
view id = record {
  id = id;
  name = lit "cpu";
  metric = lit "container.cpu";
  containers = lit "api" ∷ [];
  since = lit "1h";
  chart_type = area;
  created_at = lit "2026-01-01T00:00:00Z";
}

abbrev two_views : Option (List SavedView)
two_views = save_view plain (view (lit "b")) (save_view plain (view (lit "a")) none)

two_views_run : load_saved_views plain two_views ≡ view (lit "b") ∷ view (lit "a") ∷ []
unfolding load_saved_views save_view without take filter text_eq lit
two_views_run = refl

Reachable-IsTidy_example : IsTidy (load_saved_views plain (delete_view plain (lit "a") two_views))
Reachable-IsTidy_example =
    Reachable-IsTidy plain plain-IsJson
      (deletes (lit "a") (saves (view (lit "b")) (saves (view (lit "a")) starts)))

run-replay_example :
    view_with (lit "b") (
      load_saved_views plain (
        run plain (
          deletes_view (lit "a") ∷ saves_view (view (lit "b")) ∷ saves_view (view (lit "a")) ∷ [])))
    ≡ replay
        (deletes_view (lit "a") ∷ saves_view (view (lit "b")) ∷ saves_view (view (lit "a")) ∷ [])
        (lit "b")
run-replay_example =
    run-replay plain plain-IsJson
      (deletes_view (lit "a") ∷ saves_view (view (lit "b")) ∷ saves_view (view (lit "a")) ∷ [])
      (lit "b") (omega arith)
