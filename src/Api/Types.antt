-- ===== src/Api/Types.antt =====
-- The types of api.ts. A field that the source marks with `?` is an `Option`. Counts are natural numbers;
-- a measured value (usage, rate, latency, percentage) is a natural number of millionths, `Measure`.
-- Values of unknown type are JSON.
use argus_observability.Prelude.{ℕ, Bool, Option, List}
use argus_observability.Prelude.Text.{Text}
use argus_observability.Page.Hub.{Fields}

abbrev pub Measure : Type 0
Measure = ℕ

-- `Record<string, string>`.
abbrev pub Labels : Type 0
Labels = List (Text × Text)

pub record Health : Type 0 where
  pub status : Text

pub record SeriesPoint : Type 0 where
  pub ts : Text
  pub value : Measure

-- `points` may be null in a body of the hub.
pub record ContainerSeries : Type 0 where
  pub container : Text
  pub entity_uid : Text
  pub points : Option (List SeriesPoint)

pub record MetricSeriesResponse : Type 0 where
  pub metric_name : Text
  pub series : Option (List ContainerSeries)

pub record WorkloadSnapshot : Type 0 where
  pub container : Text
  pub entity_uid : Text
  pub stack : Option Text
  pub service : Option Text
  pub labels : Option Labels
  pub cpu_usage : Measure
  pub memory_usage : Measure
  pub memory_limit : Measure
  pub updated_at : Text

pub data GroupKind : Type 0 where
  stack service custom : GroupKind

pub record WorkloadGroup : Type 0 where
  pub id : Text
  pub name : Text
  pub kind : GroupKind
  pub description : Option Text
  pub label_key : Option Text
  pub label_value : Option Text
  pub containers : Option (List Text)
  pub member_count : Option ℕ
  pub created_at : Option Text
  pub updated_at : Option Text

pub record WorkloadGroupInput : Type 0 where
  pub name : Text
  pub kind : GroupKind
  pub description : Option Text
  pub label_key : Option Text
  pub label_value : Option Text
  pub containers : Option (List Text)

pub record WorkloadGroupSummary : Type 0 where
  pub group : WorkloadGroup
  pub member_count : ℕ
  pub avg_cpu : Measure
  pub avg_memory_pct : Measure
  pub total_memory : Measure
  pub members : List WorkloadSnapshot

pub record EventRow : Type 0 where
  pub id : Text
  pub kind : Text
  pub ts : Text
  pub severity : Text
  pub source : Text
  pub entity_uid : Text
  pub labels : Labels
  pub payload : Option Fields

pub record LogRow : Type 0 where
  pub ts : Text
  pub message : Text
  pub level : Text
  pub entity_uid : Text
  pub labels : Labels
  pub fields : Option Fields

pub record LogSearchParams : Type 0 where
  pub q : Option Text
  pub since : Option Text
  pub level : Option Text
  pub container : Option Text
  pub topic : Option Text
  pub group : Option Text
  pub trace_id : Option Text
  pub limit : Option ℕ
  pub offset : Option ℕ

pub record MetricCatalogEntry : Type 0 where
  pub name : Text
  pub label : Text
  pub unit : Text

pub record Insight : Type 0 where
  pub id : Text
  pub theme : Text
  pub severity : Text
  pub title : Text
  pub summary : Text
  pub container : Text
  pub entity_uid : Text
  pub evidence : Fields
  pub recommendations : List Text

pub record InsightsResponse : Type 0 where
  pub since : Text
  pub insights : Option (List Insight)

pub record ContainerFleetStatus : Type 0 where
  pub container : Text
  pub entity_uid : Text
  pub service : Option Text
  pub state : Option Text
  pub health : Option Text
  pub restart_count : ℕ
  pub exit_code : Option ℕ
  pub oom_killed : Option Bool
  pub status_text : Option Text
  pub disposition : Option Text
  pub updated_at : Option Text

pub record FleetSummary : Type 0 where
  pub running : ℕ
  pub exited : ℕ
  pub restarting : ℕ
  pub unhealthy : ℕ
  pub dead : ℕ
  pub total_restart_count : ℕ
  pub replicas_up : ℕ
  pub replicas_total : ℕ

pub record ServiceReplicaStatus : Type 0 where
  pub service : Text
  pub replicas_up : ℕ
  pub replicas_total : ℕ
  pub unhealthy : ℕ
  pub restarting : ℕ

pub record FleetEventStats : Type 0 where
  pub restarts_24h : ℕ
  pub failures_24h : ℕ
  pub oom_24h : ℕ
  pub disconnect_24h : ℕ

pub record FleetStatusResponse : Type 0 where
  pub updated_at : Text
  pub summary : FleetSummary
  pub services : List ServiceReplicaStatus
  pub containers : Option (List ContainerFleetStatus)
  pub events_24h : FleetEventStats

pub record HttpServiceSummary : Type 0 where
  pub service : Text
  pub requests : ℕ
  pub errors : ℕ
  pub error_rate : Measure
  pub avg_latency_ms : Measure
  pub max_latency_ms : Measure

pub record LogPattern : Type 0 where
  pub pattern_key : Text
  pub pattern_text : Text
  pub container : Text
  pub service : Text
  pub count : ℕ
  pub last_seen : Text
  pub sample : Text

pub record LogPatternParams : Type 0 where
  pub since : Option Text
  pub q : Option Text
  pub container : Option Text
  pub group : Option Text

pub record TopologyNode : Type 0 where
  pub id : Text
  pub label : Text

pub record TopologyEdge : Type 0 where
  pub source : Text
  pub target : Text
  pub kind : Text
  pub count : ℕ
  pub origin : Option Text
  pub port : Option ℕ

-- Both lists may be null in a body of the hub.
pub record TopologyGraph : Type 0 where
  pub nodes : Option (List TopologyNode)
  pub edges : Option (List TopologyEdge)

pub record ActiveAlert : Type 0 where
  pub rule_id : Text
  pub entity_uid : Text
  pub container : Text
  pub title : Text
  pub severity : Option Text
  pub summary : Text
  pub fired_at : Text
  pub value : Measure

pub record TraceSpan : Type 0 where
  pub trace_id : Text
  pub span_id : Text
  pub parent_span_id : Option Text
  pub name : Text
  pub service : Text
  pub container : Text
  pub entity_uid : Option Text
  pub start_ts : Text
  pub end_ts : Text
  pub duration_ms : Measure
  pub status : Text
  pub kind : Text
  pub source : Text
  pub attributes : Option Fields

pub record TraceDetail : Type 0 where
  pub trace_id : Text
  pub source : Text
  pub start_ts : Option Text
  pub end_ts : Option Text
  pub duration_ms : Measure
  pub spans : List TraceSpan

pub record TraceSummary : Type 0 where
  pub trace_id : Text
  pub source : Text
  pub service : Text
  pub container : Text
  pub name : Text
  pub start_ts : Text
  pub end_ts : Text
  pub duration_ms : Measure
  pub span_count : ℕ
  pub error : Bool

pub record SloDefinition : Type 0 where
  pub id : Text
  pub name : Text
  pub service : Text
  pub group_id : Option Text
  pub sli_metric : Text
  pub target : Measure
  pub window_hours : ℕ
  pub latency_threshold_ms : Measure
  pub created_at : Option Text

pub record SloStatus : Type 0 where
  pub slo : SloDefinition
  pub compliance : Measure
  pub error_budget_remaining : Measure
  pub good_events : ℕ
  pub total_events : ℕ
  pub p95_latency_ms : Measure
  pub breached : Bool
  pub evaluated_at : Text
