-- ===== src/Observability.antt =====
-- web/src/lib/observability.ts: the fixed choices, the saved views in local storage, and the match of a
-- container with a service.
pub mod SavedViews
use argus_observability.Prelude.{
  Bool, true, false, ◌||◌, Option, none, some, List, [], ◌∷◌, ◌++◌, if◌then◌else◌,
}
use argus_observability.Prelude.Text.{Text, lit, text_eq, is_empty, includes, starts_with}
use argus_observability.Fleet.{is_text}

abbrev pub log_topics : List Text
log_topics =
    lit "all"
    ∷ lit "gc"
    ∷ lit "memory"
    ∷ lit "oom"
    ∷ lit "error"
    ∷ lit "performance"
    ∷ lit "trace"
    ∷ []

abbrev pub log_levels : List Text
log_levels = lit "all" ∷ lit "error" ∷ lit "warn" ∷ lit "info" ∷ lit "debug" ∷ []

abbrev pub time_ranges : List Text
time_ranges = lit "15m" ∷ lit "1h" ∷ lit "6h" ∷ lit "24h" ∷ []

unfoldable pub matches_service : Text → Option Text → Text → Bool
matches_service container service target =
    if is_empty target
    then true
    else is_text service target
      || text_eq container target
      || includes container (lit "-" ++ (target ++ lit "-"))
      || starts_with container (target ++ lit "-")
