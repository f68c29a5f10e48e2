-- ===== src/Language/Catalog.antt =====
-- web/src/lib/i18n-catalog.ts: the names that the hub sends, translated where the panel knows them. `t` is the
-- translation function. The names that an object of JavaScript inherits, such as `constructor`, are not modelled.
use argus_observability.Prelude.{none, some, List, [], ◌∷◌, ◌++◌, if◌then◌else◌}
use argus_observability.Prelude.Text.{Text, lit, text_eq}
use argus_observability.Query.{lookup}

abbrev pub rule_keys : List (Text × Text)
rule_keys =
    (lit "cpu-high", lit "alerts.cpuHigh") ∷ (lit "memory-high", lit "alerts.memoryHigh") ∷ []

abbrev pub metric_keys : List (Text × Text)
metric_keys =
    (lit "cpu.usage", lit "metrics.cpuUsage")
    ∷ (lit "memory.usage", lit "metrics.memoryUsage")
    ∷ (lit "memory.usage_pct", lit "metrics.memoryPct")
    ∷ (lit "memory.limit", lit "metrics.memoryLimit")
    ∷ (lit "http.duration_ms", lit "metrics.httpDuration")
    ∷ (lit "http.error_rate", lit "metrics.httpErrorRate")
    ∷ (lit "http.requests", lit "metrics.httpRequests")
    ∷ (lit "http.status", lit "metrics.httpStatus")
    ∷ (lit "network.rx", lit "metrics.netRx")
    ∷ (lit "network.tx", lit "metrics.netTx")
    ∷ (lit "block.read", lit "metrics.diskRead")
    ∷ (lit "block.write", lit "metrics.diskWrite")
    ∷ []

module _ (t : Text → Text) where
  unfoldable pub localize_alert_title : Text → Text → Text
  localize_alert_title rule_id fallback = elim (lookup rule_id rule_keys) [
    | none ↦ fallback
    | some key ↦ t key
  ]

  -- `value_now` is the translation of `alerts.valueNow` for the value.
  unfoldable pub localize_alert_summary : Text → Text → Text → Text
  localize_alert_summary rule_id value_now fallback = elim (lookup rule_id rule_keys) [
    | none ↦ fallback
    | some key ↦ value_now
  ]

  unfoldable pub localize_metric_label : Text → Text → Text
  localize_metric_label metric fallback = elim (lookup metric metric_keys) [
    | none ↦ fallback
    | some key ↦ t key
  ]

  unfoldable pub localize_insight_theme : Text → Text
  localize_insight_theme theme =
      let key = lit "insightTheme." ++ theme in if text_eq (t key) key then theme else t key
