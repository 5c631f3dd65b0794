-- ===== src/Sentinel/Alerts/Rules.antt =====
-- crates/sentinel/src/alerts.rs: the rules and the configuration that it starts with.
use dbopt.Base.{ℕ, true, Option, none, some, List, [], ◌∷◌}
use dbopt.Base.Bytes.{Bytes, codes}
use dbopt.Sentinel.Floats.{Floats}
use dbopt.Sentinel.Alerts.{gt, ge, lt, warning, critical, fixed, ple_floor_per_4_gb, AlertRule}

pub data WebhookFormat : Type 0 where
  generic slack teams : WebhookFormat

pub record AlertConfig (F : Type 0) : Type 0 where
  pub webhook_url : Option Bytes
  pub webhook_format : WebhookFormat
  pub cooldown_secs : ℕ
  pub rules : List (AlertRule F)

abbrev pub default_cooldown_secs : ℕ
default_cooldown_secs = 900

module _ {F : Type 0} (fl : Floats F) where
  unfoldable pub default_rules : List (AlertRule F)
  default_rules =
      record {
        id = codes "cpu.runnable_tasks_high";
        metric_id = none;
        metric = codes "Runnable tasks waiting for a CPU";
        comparator = ge;
        threshold = fixed (fl.literal 100 1);
        severity = warning;
        enabled = true;
        source = codes "Red Gate runnable-task tiers (Med=10/High=20)";
      }
      ∷ record {
        id = codes "cpu.signal_wait_pct_high";
        metric_id = none;
        metric = codes "Signal-wait share of total waits";
        comparator = gt;
        threshold = fixed (fl.literal 350 1);
        severity = warning;
        enabled = true;
        source = codes "SQLShack wait-stats: signal-wait > 35% = CPU pressure";
      }
      ∷ record {
        id = codes "memory.ple_below_floor";
        metric_id = none;
        metric = codes "Cache retention (PLE) below floor";
        comparator = lt;
        threshold = ple_floor_per_4_gb (fl.literal 3000 1);
        severity = warning;
        enabled = true;
        source = codes "Kehayias PLE floor = (buffer GB / 4) * 300s";
      }
      ∷ record {
        id = codes "memory.pending_memory_grants";
        metric_id = none;
        metric = codes "Queries waiting for a memory grant";
        comparator = ge;
        threshold = fixed (fl.literal 10 1);
        severity = warning;
        enabled = true;
        source = codes "RESOURCE_SEMAPHORE waiter >= 1 (timeout error 8645 ~20m)";
      }
      ∷ record {
        id = codes "plancache.adhoc_singleuse_pct";
        metric_id = none;
        metric = codes "Single-use ad-hoc plan share of cache";
        comparator = ge;
        threshold = fixed (fl.literal 200 1);
        severity = warning;
        enabled = true;
        source = codes "Industry action range 15-30%; warn at 20%";
      }
      ∷ record {
        id = codes "tempdb.pagelatch_contention";
        metric_id = none;
        metric = codes "tempdb allocation-page waiters";
        comparator = ge;
        threshold = fixed (fl.literal 100 1);
        severity = warning;
        enabled = true;
        source = codes "Red Gate tempdb tiers (Med=10/High=50)";
      }
      ∷ record {
        id = codes "io.data_file_latency_ms.warning";
        metric_id = some (codes "io.data_file_latency_ms");
        metric = codes "Data-file I/O latency";
        comparator = gt;
        threshold = fixed (fl.literal 200 1);
        severity = warning;
        enabled = true;
        source = codes "SQLskills bands: 20-100ms bad";
      }
      ∷ record {
        id = codes "io.data_file_latency_ms.critical";
        metric_id = some (codes "io.data_file_latency_ms");
        metric = codes "Data-file I/O latency (critical)";
        comparator = gt;
        threshold = fixed (fl.literal 1000 1);
        severity = critical;
        enabled = true;
        source = codes "SQLskills bands: >100ms critical";
      }
      ∷ record {
        id = codes "io.log_write_latency_ms";
        metric_id = none;
        metric = codes "Transaction-log write latency";
        comparator = gt;
        threshold = fixed (fl.literal 50 1);
        severity = warning;
        enabled = true;
        source = codes "SQLCAT log-write target <=1ms; high band >5ms";
      }
      ∷ record {
        id = codes "reliability.deadlocks";
        metric_id = none;
        metric = codes "Deadlocks captured";
        comparator = ge;
        threshold = fixed (fl.literal 10 1);
        severity = critical;
        enabled = true;
        source = codes "Any new deadlock graph (system_health ring buffer)";
      }
      ∷ record {
        id = codes "reliability.blocking";
        metric_id = none;
        metric = codes "Blocked sessions";
        comparator = ge;
        threshold = fixed (fl.literal 10 1);
        severity = warning;
        enabled = true;
        source = codes "Any session blocked on another (live request snapshot)";
      }
      ∷ []

  -- AlertConfig::default
  unfoldable pub default_config : AlertConfig F
  unfolding default_rules
  default_config = record {
    webhook_url = none;
    webhook_format = generic;
    cooldown_secs = default_cooldown_secs;
    rules = default_rules;
  }
