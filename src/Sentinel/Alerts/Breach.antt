-- ===== src/Sentinel/Alerts/Breach.antt =====
-- Which alerts the rules that the alerting starts with give, metric by metric.
use dbopt.Base.{
  ℕ, ◌≡◌, refl, ap, ◌∙◌, Bool, Bool-cases, Option-cases, inl, inr, Option, none, some, List, [],
  ◌∷◌, ◌++◌, map, if◌then◌else◌,
}
use dbopt.Base.Bytes.{Bytes, codes, eq_bytes}
use dbopt.Sentinel.Floats.{Floats}
use dbopt.Sentinel.Alerts.{
  ple_floor_per_4_gb, resolved, AlertSeverity, warning, critical, AlertRule, FiredAlert,
  MetricSnapshot, value_for, metric_key, holds, resolve_threshold, alert_of, evaluate_alert,
  evaluate_all,
}
use dbopt.Sentinel.Alerts.Rules.{default_rules}

-- What an alert reports: the rule, its severity, the measured value and the threshold.
abbrev pub Row : Type 0 → Type 0
Row F = Bytes × (AlertSeverity × (F × F))

abbrev pub row_of : {F : Type 0} → FiredAlert F → Row F
row_of a = (a.rule_id, (a.severity, (a.value, a.threshold)))

-- A row if the metric was read, the threshold is known, and the value is on its wrong side.
abbrev pub row_if :
    {F : Type 0} → Bytes → AlertSeverity → Option F → (F → F → Bool) → Option F → List (Row F)
row_if id severity none wrong limit = []
row_if id severity (some value) wrong none = []
row_if id severity (some value) wrong (some limit) =
    if wrong value limit then (id, (severity, (value, limit))) ∷ [] else []

abbrev pub joined {ℓ} : {A : Type ℓ} → List (List A) → List A
joined [] = []
joined (xs ∷ xss) = xs ++ joined xss

module _ {F : Type 0} (fl : Floats F) where
  rule_rows : MetricSnapshot F → AlertRule F → List (Row F)
  rule_rows snap rule =
      if rule.enabled
      then row_if rule.id rule.severity (value_for snap (metric_key rule))
          (λ value limit. holds fl rule.comparator value limit) (resolve_threshold fl rule snap)
      else []

  all_rows : MetricSnapshot F → List (AlertRule F) → List (Row F)
  unfolding rule_rows
  all_rows snap [] = []
  all_rows snap (rule ∷ rules) = rule_rows snap rule ++ all_rows snap rules

  evaluate_all-rows :
      (snap : MetricSnapshot F) (rules : List (AlertRule F))
      → map row_of (evaluate_all fl rules snap) ≡ all_rows snap rules
  unfolding evaluate_all evaluate_alert alert_of all_rows
  evaluate_all-rows snap [] = refl
  evaluate_all-rows snap (rule ∷ rules) =
      let later = evaluate_all-rows snap rules in
      elim (Bool-cases rule.enabled) [
        | inr e ↦ rw (evaluate_all, rule_rows, e) later
        | inl e ↦ elim (Option-cases (value_for snap (metric_key rule))) [
          | inl n ↦ rw (evaluate_all, rule_rows, e, n) later
          | inr (v, hv) ↦ elim (Option-cases (resolve_threshold fl rule snap)) [
            | inl n ↦ rw (evaluate_all, rule_rows, e, hv, n) later
            | inr (t, ht) ↦ elim (Bool-cases (holds fl rule.comparator v t)) [
              | inr n ↦ rw (evaluate_all, rule_rows, e, hv, ht, n) later
              | inl hh ↦
                  rw (evaluate_all, rule_rows, e, hv, ht, hh)
                    (ap (◌∷◌ (rule.id, (rule.severity, (v, t)))) later)
            ]
          ]
        ]
      ]

  abbrev pub at_least : F → F → Bool
  at_least = λ value limit. fl.at_most limit value

  abbrev pub above : F → F → Bool
  above = λ value limit. fl.less limit value

  abbrev pub below : F → F → Bool
  below = λ value limit. fl.less value limit

  abbrev pub tenths : ℕ → Option F
  tenths n = some (fl.literal n 1)

  -- 300 s for every 4 GB of the buffer pool, and 300 s at least; unknown without its size.
  abbrev pub cache_floor : Option F → Option F
  cache_floor none = none
  cache_floor (some gb) = some (
      fl.greater (fl.times (fl.divided gb (fl.literal 40 1)) (fl.literal 3000 1))
        (fl.literal 3000 1))

  floor-cache_floor :
      (gb : Option F) → resolved fl (ple_floor_per_4_gb (fl.literal 3000 1)) gb ≡ cache_floor gb
  floor-cache_floor none = refl
  floor-cache_floor (some gb) = refl

  -- The alerts on a sample, at a floor for the cache retention: 10 runnable tasks; above 35 % signal
  -- waits; below that floor; one pending grant; 20 % single-use plans; 10 page-latch waiters; above
  -- 20 ms of data latency and, critical, above 100 ms; above 5 ms of log latency; one deadlock,
  -- critical; and one blocked session.
  abbrev pub expected_rows : MetricSnapshot F → Option F → List (Row F)
  expected_rows snap floor = joined (
      row_if (codes "cpu.runnable_tasks_high") warning snap.cpu_runnable_tasks_avg at_least
        (tenths 100)
      ∷ row_if (codes "cpu.signal_wait_pct_high") warning snap.cpu_signal_wait_pct above
          (tenths 350)
      ∷ row_if (codes "memory.ple_below_floor") warning snap.memory_ple_secs below floor
      ∷ row_if (codes "memory.pending_memory_grants") warning snap.pending_memory_grants at_least
          (tenths 10)
      ∷ row_if (codes "plancache.adhoc_singleuse_pct") warning snap.plancache_singleuse_pct at_least
          (tenths 200)
      ∷ row_if (codes "tempdb.pagelatch_contention") warning snap.tempdb_pagelatch_waiters at_least
          (tenths 100)
      ∷ row_if (codes "io.data_file_latency_ms.warning") warning snap.io_data_latency_ms above
          (tenths 200)
      ∷ row_if (codes "io.data_file_latency_ms.critical") critical snap.io_data_latency_ms above
          (tenths 1000)
      ∷ row_if (codes "io.log_write_latency_ms") warning snap.io_log_write_latency_ms above
          (tenths 50)
      ∷ row_if (codes "reliability.deadlocks") critical snap.deadlocks at_least (tenths 10)
      ∷ row_if (codes "reliability.blocking") warning snap.blocked_sessions at_least (tenths 10)
      ∷ [])

  default_rules-rows :
      (snap : MetricSnapshot F)
      → all_rows snap (default_rules fl)
        ≡ expected_rows snap
            (resolved fl (ple_floor_per_4_gb (fl.literal 3000 1)) snap.buffer_pool_gb)
  unfolding all_rows rule_rows default_rules value_for resolve_threshold holds eq_bytes
  default_rules-rows snap = refl

  -- With the default rules a sample gives exactly the alerts of that list in its order, whatever was read
  -- of the metrics; each reports the value of its own metric and the limit of the list. A metric that
  -- was not read gives none, and neither does the cache retention if the size of the pool is unknown.
  pub default_rules-fire :
      (snap : MetricSnapshot F)
      → map row_of (evaluate_all fl (default_rules fl) snap)
        ≡ expected_rows snap (cache_floor snap.buffer_pool_gb)
  unfolding all_rows default_rules value_for resolve_threshold holds eq_bytes
  default_rules-fire snap =
      evaluate_all-rows snap (default_rules fl)
      ∙ default_rules-rows snap
      ∙ ap (expected_rows snap) (floor-cache_floor snap.buffer_pool_gb)
