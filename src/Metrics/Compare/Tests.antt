-- ===== src/Metrics/Compare/Tests.antt =====
-- Two containers that are compared, and a view of them.
use argus_observability.Prelude.{
  ◌+◌, ◌*◌, false, not, some, [], ◌∷◌, if◌then◌else◌, ◌≡◌, refl, filter,
}
use argus_observability.Prelude.Text.{
  lit, text_eq, is_empty, has_text, split, split_at, trim, trim_start, trim_end, is_space,
}
use argus_observability.Query.{Params, get, query_value}
use argus_observability.Observability.SavedViews.{SavedView, line}
use argus_observability.Metrics.Compare.{
  choice_of, selected_of, toggle_container, view_to_save, apply_view, round_div,
}
use argus_observability.Metrics.Compare.Laws.{toggle_container_lem}
use argus_observability.Metrics.Compare.Views.{choice_of-apply_view}

abbrev url : Params
url = (lit "containers", lit "api,,db") ∷ (lit "chart", lit "line") ∷ (lit "since", lit "6h") ∷ []

selected_run : (choice_of url).selected ≡ lit "api" ∷ lit "db" ∷ []
unfolding choice_of selected_of query_value get text_eq lit split split_at filter
selected_run = refl

memory_run : round_div (3 * 1048576 * 1000000 + 524288 * 1000000) (1048576 * 1000000) ≡ 4
unfolding round_div
memory_run = refl

toggle_container_lem_example :
    (has_text (choice_of (toggle_container (lit "db") url)).selected (lit "api") ≡ (
      if text_eq (lit "db") (lit "api")
      then not (has_text (choice_of url).selected (lit "db"))
      else has_text (choice_of url).selected (lit "api")))
    × (get (lit "since") (toggle_container (lit "db") url) ≡ get (lit "since") url)
unfolding lit
toggle_container_lem_example =
    toggle_container_lem (lit "db") (lit "api") (lit "since") url (refl, (refl, (refl, tt)))
      (λ e. cc)

abbrev saved : SavedView
saved = record {
  id = lit "1";
  name = lit "mine";
  metric = lit "memory.usage_pct";
  containers = lit "api" ∷ lit "db" ∷ [];
  since = lit "6h";
  chart_type = line;
  created_at = lit "now";
}

saved_run : view_to_save (lit "1") (lit "now") (lit " mine") url ≡ some saved
unfolding view_to_save choice_of selected_of query_value get text_eq lit split split_at trim
    trim_start trim_end is_space filter
saved_run = refl

metric_full : is_empty (choice_of url).metric ≡ false
unfolding choice_of query_value get text_eq lit
metric_full = refl

since_full : is_empty (choice_of url).since ≡ false
unfolding choice_of query_value get text_eq lit
since_full = refl

choice_of-apply_view_example :
    choice_of (apply_view saved ((lit "group", lit "shop") ∷ []))
    ≡ record (choice_of url) { group = [] }
choice_of-apply_view_example =
    choice_of-apply_view (lit "1") (lit "now") (lit " mine") url ((lit "group", lit "shop") ∷ [])
      metric_full since_full saved_run
