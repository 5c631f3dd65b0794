-- ===== src/Sentinel/Alerts.antt =====
-- crates/sentinel/src/alerts.rs: alert rules and their evaluation against a sample of the metrics.
-- The `f64` of the source is a type parameter with its operations.
pub mod Rules
pub mod Breach
use dbopt.Base.{ℕ, Bool, not, Option, none, some, List, [], ◌∷◌, ◌++◌, if◌then◌else◌}
use dbopt.Base.Bytes.{Bytes, codes, eq_bytes}
use dbopt.Sentinel.Floats.{Floats}

pub data Comparator : Type 0 where
  gt ge lt le : Comparator

pub data AlertSeverity : Type 0 where
  info warning critical : AlertSeverity

-- Severity::as_str
unfoldable pub severity_str : AlertSeverity → Bytes
severity_str info = codes "info"
severity_str warning = codes "warning"
severity_str critical = codes "critical"

-- Severity::color
unfoldable pub color : AlertSeverity → Bytes
color info = codes "#6b7280"
color warning = codes "#f59e0b"
color critical = codes "#dc2626"

pub data Threshold (F : Type 0) : Type 0 where
  fixed : F → Threshold F
  ple_floor_per_4_gb : F → Threshold F

pub record AlertRule (F : Type 0) : Type 0 where
  pub id : Bytes
  pub metric_id : Option Bytes
  pub metric : Bytes
  pub comparator : Comparator
  pub threshold : Threshold F
  pub severity : AlertSeverity
  pub enabled : Bool
  pub source : Bytes

pub record FiredAlert (F : Type 0) : Type 0 where
  pub rule_id : Bytes
  pub metric : Bytes
  pub value : F
  pub threshold : F
  pub severity : AlertSeverity
  pub message : Bytes

pub record MetricSnapshot (F : Type 0) : Type 0 where
  pub cpu_runnable_tasks_avg : Option F
  pub cpu_signal_wait_pct : Option F
  pub memory_ple_secs : Option F
  pub buffer_pool_gb : Option F
  pub pending_memory_grants : Option F
  pub plancache_singleuse_pct : Option F
  pub tempdb_pagelatch_waiters : Option F
  pub io_data_latency_ms : Option F
  pub io_log_write_latency_ms : Option F
  pub deadlocks : Option F
  pub blocked_sessions : Option F

-- MetricSnapshot::value_for
unfoldable pub value_for : {F : Type 0} → MetricSnapshot F → Bytes → Option F
unfolding eq_bytes
value_for snap id =
    if eq_bytes id (codes "cpu.runnable_tasks_high")
    then snap.cpu_runnable_tasks_avg
    else if eq_bytes id (codes "cpu.signal_wait_pct_high")
    then snap.cpu_signal_wait_pct
    else if eq_bytes id (codes "memory.ple_below_floor")
    then snap.memory_ple_secs
    else if eq_bytes id (codes "memory.pending_memory_grants")
    then snap.pending_memory_grants
    else if eq_bytes id (codes "plancache.adhoc_singleuse_pct")
    then snap.plancache_singleuse_pct
    else if eq_bytes id (codes "tempdb.pagelatch_contention")
    then snap.tempdb_pagelatch_waiters
    else if eq_bytes id (codes "io.data_file_latency_ms")
    then snap.io_data_latency_ms
    else if eq_bytes id (codes "io.log_write_latency_ms")
    then snap.io_log_write_latency_ms
    else if eq_bytes id (codes "reliability.deadlocks")
    then snap.deadlocks
    else if eq_bytes id (codes "reliability.blocking")
    then snap.blocked_sessions
    else none

abbrev pub metric_key : {F : Type 0} → AlertRule F → Bytes
metric_key rule = elim rule.metric_id [ none ↦ rule.id | some key ↦ key ]

-- Comparator::glyph
unfoldable pub glyph : Comparator → Bytes
glyph gt = codes ">"
glyph ge = codes ">="
glyph lt = codes "<"
glyph le = codes "<="

module _ {F : Type 0} (fl : Floats F) where
  -- Comparator::holds
  unfoldable pub holds : Comparator → F → F → Bool
  holds gt measured threshold = fl.less threshold measured
  holds ge measured threshold = fl.at_most threshold measured
  holds lt measured threshold = fl.less measured threshold
  holds le measured threshold = fl.at_most measured threshold

  abbrev pub resolved : Threshold F → Option F → Option F
  resolved (fixed value) gb = some value
  resolved (ple_floor_per_4_gb min_floor) none = none
  resolved (ple_floor_per_4_gb min_floor) (some gb) =
      some (fl.greater (fl.times (fl.divided gb (fl.literal 40 1)) (fl.literal 3000 1)) min_floor)

  unfoldable pub resolve_threshold : AlertRule F → MetricSnapshot F → Option F
  resolve_threshold rule snap = resolved rule.threshold snap.buffer_pool_gb

  unfoldable pub fmt_num : F → Bytes
  fmt_num n =
      if fl.less (fl.magnitude (fl.minus n (fl.round n))) (fl.literal 1 9)
      then fl.show_int (fl.round n)
      else fl.show_tenth n

  unfoldable pub alert_of : AlertRule F → F → F → FiredAlert F
  unfolding fmt_num glyph
  alert_of rule measured threshold = record {
    rule_id = rule.id;
    metric = rule.metric;
    value = measured;
    threshold = threshold;
    severity = rule.severity;
    message =
        rule.metric
        ++ codes ": "
        ++ fmt_num measured
        ++ codes " "
        ++ glyph rule.comparator
        ++ codes " "
        ++ fmt_num threshold;
  }

  unfoldable pub evaluate_alert : AlertRule F → MetricSnapshot F → Option (FiredAlert F)
  unfolding holds value_for resolve_threshold alert_of
  evaluate_alert rule snap =
      if not rule.enabled then none else elim (value_for snap (metric_key rule)) [
        | none ↦ none
        | some measured ↦ elim (resolve_threshold rule snap) [
          | none ↦ none
          | some threshold ↦
              if not (holds rule.comparator measured threshold)
              then none
              else some (alert_of rule measured threshold)
        ]
      ]

  abbrev fired_then : Option (FiredAlert F) → List (FiredAlert F) → List (FiredAlert F)
  fired_then none rest = rest
  fired_then (some a) rest = a ∷ rest

  unfoldable pub evaluate_all : List (AlertRule F) → MetricSnapshot F → List (FiredAlert F)
  unfolding evaluate_alert
  evaluate_all [] snap = []
  evaluate_all (rule ∷ rules) snap = fired_then (evaluate_alert rule snap) (evaluate_all rules snap)
