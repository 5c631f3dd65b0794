-- ===== src/Sentinel/AlertEval.antt =====
-- crates/sentinel/src/poll/alert_eval.rs: the pass that evaluates the alert rules of an instance. What
-- the storage last recorded is a record, whose rows keep the fields that the pass reads; the database
-- and the webhook are parameters.
pub mod Cooldown
pub mod History
use dbopt.Base.{
  ℕ, zero, suc, Bool, true, false, not, ◌&&◌, Option, none, some, List, [], ◌∷◌, if◌then◌else◌,
}
use dbopt.Base.Bytes.{Bytes, codes, eq_ignore_case}
use dbopt.Base.Text.{trim, is_empty}
use dbopt.Sentinel.Floats.{ℤ, pos, negsuc, Floats}
use dbopt.Sentinel.Alerts.{FiredAlert, MetricSnapshot, evaluate_all}
use dbopt.Sentinel.Alerts.Rules.{WebhookFormat, AlertConfig}
use dbopt.Sentinel.AlertStore.{AlertRow, should_fire_alert, insert_fired_alert, mark_alert_notified}

pub record CpuPressureRow : Type 0 where
  pub online_schedulers : ℤ
  pub runnable_tasks : ℤ

pub record MemoryHeadroomRow : Type 0 where
  pub page_life_expectancy : ℤ
  pub pending_memory_grants : ℤ
  pub total_server_memory_kb : ℤ

pub record PlanCacheRow : Type 0 where
  pub single_use_size_kb : ℤ
  pub total_size_kb : ℤ

pub record IoLatencyRow (F : Type 0) : Type 0 where
  pub file_type : Bytes
  pub avg_read_latency_ms : F
  pub avg_write_latency_ms : F

-- What the reads of the storage give for an instance.
pub record Telemetry (F : Type 0) : Type 0 where
  pub latest_cpu_pressure : Option CpuPressureRow
  pub latest_signal_wait_pct : Option F
  pub latest_memory_headroom : Option MemoryHeadroomRow
  pub latest_plan_cache : Option PlanCacheRow
  pub latest_tempdb_contention : Option ℤ
  pub latest_io_latency : List (IoLatencyRow F)
  pub deadlocks_since : ℤ
  pub latest_blocked_sessions : Option ℤ

unfoldable pub is_positive : ℤ → Bool
is_positive (pos zero) = false
is_positive (pos (suc n)) = true
is_positive (negsuc n) = false

-- The database and the webhook: which statements fail, the id of a new row, and whether a
-- notification was delivered.
pub record Env (F : Type 0) : Type 0 where
  pub instance_id_of : Bytes → Option ℕ
  pub read_fails : List (AlertRow F) → Bytes → Bool
  pub insert_fails : List (AlertRow F) → FiredAlert F → Bool
  pub mark_fails : ℕ → Bool
  pub new_id : List (AlertRow F) → ℕ
  pub notify_webhook : Bytes → FiredAlert F → Bytes → WebhookFormat → Bool

module _ {F : Type 0} (fl : Floats F) where
  -- `worst.map_or(v, |w| w.max(v))`
  abbrev worse : Option F → F → Option F
  worse none v = some v
  worse (some w) v = some (fl.greater w v)

  -- The worst latencies of data and of log files behind the loop over the files.
  unfoldable pub worst_latencies : Option F × Option F → List (IoLatencyRow F) → Option F × Option F
  unfolding eq_ignore_case
  worst_latencies worst [] = worst
  worst_latencies (worst_data, worst_log_write) (f ∷ files) =
      worst_latencies
        (if eq_ignore_case f.file_type (codes "LOG")
          then (worst_data, worse worst_log_write f.avg_write_latency_ms)
          else (
            worse worst_data (fl.greater f.avg_read_latency_ms f.avg_write_latency_ms),
            worst_log_write,
          ))
        files

  abbrev ratio : ℤ → ℤ → F
  ratio a b = fl.divided (fl.of_int a) (fl.of_int b)

  abbrev cpu_of : Option CpuPressureRow → Option F
  cpu_of none = none
  cpu_of (some cpu) =
      if is_positive cpu.online_schedulers
      then some (ratio cpu.runnable_tasks cpu.online_schedulers)
      else none

  abbrev buffer_pool_of : Option MemoryHeadroomRow → Option F
  buffer_pool_of none = none
  buffer_pool_of (some mem) =
      if is_positive mem.total_server_memory_kb
      then some (fl.divided (fl.of_int mem.total_server_memory_kb) (fl.literal 10485760 1))
      else none

  abbrev singleuse_of : Option PlanCacheRow → Option F
  singleuse_of none = none
  singleuse_of (some pc) =
      if is_positive pc.total_size_kb
      then some (fl.times (ratio pc.single_use_size_kb pc.total_size_kb) (fl.literal 1000 1))
      else none

  abbrev measured_int : Option ℤ → Option F
  measured_int none = none
  measured_int (some n) = some (fl.of_int n)

  abbrev memory_int : (MemoryHeadroomRow → ℤ) → Option MemoryHeadroomRow → Option F
  memory_int field none = none
  memory_int field (some mem) = some (fl.of_int (field mem))

  unfoldable pub build_snapshot : Telemetry F → MetricSnapshot F
  unfolding worst_latencies is_positive
  build_snapshot t =
      let worst = worst_latencies (none, none) t.latest_io_latency in
      record {
        cpu_runnable_tasks_avg = cpu_of t.latest_cpu_pressure;
        cpu_signal_wait_pct = t.latest_signal_wait_pct;
        memory_ple_secs = memory_int (λ m. m.page_life_expectancy) t.latest_memory_headroom;
        buffer_pool_gb = buffer_pool_of t.latest_memory_headroom;
        pending_memory_grants = memory_int (λ m. m.pending_memory_grants) t.latest_memory_headroom;
        plancache_singleuse_pct = singleuse_of t.latest_plan_cache;
        tempdb_pagelatch_waiters = measured_int t.latest_tempdb_contention;
        io_data_latency_ms = worst.0;
        io_log_write_latency_ms = worst.1;
        deadlocks = some (fl.of_int t.deadlocks_since);
        blocked_sessions = measured_int t.latest_blocked_sessions;
      }

module _ {F : Type 0} (env : Env F) (instance_name : Bytes) (config : AlertConfig F) where
  -- Is there a webhook, and does it take the alert?
  unfoldable pub delivered : FiredAlert F → Bool
  unfolding trim
  delivered a = elim config.webhook_url [
    | none ↦ false
    | some url ↦
        not (is_empty (trim url)) && env.notify_webhook url a instance_name config.webhook_format
  ]

  -- The body of the loop over the breaches.
  unfoldable pub record_breach : ℕ → ℕ → List (AlertRow F) → FiredAlert F → List (AlertRow F)
  unfolding should_fire_alert insert_fired_alert mark_alert_notified delivered
  record_breach instance_id now rows a =
      if not (
        should_fire_alert (env.read_fails rows a.rule_id) rows instance_id a.rule_id now
          config.cooldown_secs)
      then rows
      else if env.insert_fails rows a
      then rows
      else let id = env.new_id rows in
        let inserted = insert_fired_alert id instance_id now a rows in
        if delivered a && not (env.mark_fails id) then mark_alert_notified id inserted else inserted

  unfoldable pub record_breaches :
      ℕ → ℕ → List (AlertRow F) → List (FiredAlert F) → List (AlertRow F)
  unfolding record_breach
  record_breaches instance_id now rows [] = rows
  record_breaches instance_id now rows (a ∷ breaches) =
      record_breaches instance_id now (record_breach instance_id now rows a) breaches

  unfoldable pub evaluate_instance :
      Floats F → (ℕ → Telemetry F) → ℕ → List (AlertRow F) → List (AlertRow F)
  unfolding evaluate_all build_snapshot record_breaches
  evaluate_instance fl telemetry now rows = elim (env.instance_id_of instance_name) [
    | none ↦ rows
    | some instance_id ↦
        record_breaches instance_id now rows
          (evaluate_all fl config.rules (build_snapshot fl (telemetry instance_id)))
  ]
