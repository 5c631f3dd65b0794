-- ===== src/Sentinel/Tests.antt =====
-- Alert rules on concrete samples, and the theorems on alerts at them. The numbers are whole.
use dbopt.Base.{
  ◌+◌, ℕ, ◌-◌, ◌*◌, ◌/◌, ◌^◌, ◌≡◌, refl, true, false, none, some, List, [], ◌∷◌, ltb, leb,
  if◌then◌else◌, map, arith,
}
use dbopt.Base.Bytes.{Bytes, codes, eq_bytes}
use dbopt.Sentinel.Floats.{ℤ, pos, negsuc, Floats}
use dbopt.Sentinel.Alerts.{
  AlertRule, MetricSnapshot, ge, fixed, warning, evaluate_alert, evaluate_all,
}
use dbopt.Sentinel.Alerts.Breach.{row_of, expected_rows, default_rules-fire}
use dbopt.Sentinel.Alerts.Rules.{AlertConfig, generic, default_rules}
use dbopt.Sentinel.AlertStore.{AlertRow}
use dbopt.Sentinel.AlertEval.{Telemetry, Env, evaluate_instance}
use dbopt.Sentinel.AlertEval.Cooldown.{spaced}
use dbopt.Sentinel.Keyed.{get, get_or}
use dbopt.Sentinel.Waits.{
  Snapshot, has_decreased, delta_rows, WaitRow, gather_totals, rows_of, poll_wait_stats,
}
use dbopt.Sentinel.Waits.Deltas.{waited, polls, poll, last, polls-waited}

abbrev whole_number : ℤ → ℕ
whole_number (pos n) = n
whole_number (negsuc n) = 0

abbrev pub whole : Floats ℕ
whole = record {
  literal = λ digits places. digits / 10 ^ places;
  of_int = whole_number;
  less = ltb;
  at_most = leb;
  minus = λ a b. a - b;
  times = λ a b. a * b;
  divided = λ a b. a / b;
  greater = λ a b. if ltb a b then b else a;
  round = λ a. a;
  magnitude = λ a. a;
  show_int = λ a. [];
  show_tenth = λ a. [];
}

abbrev blocking : AlertRule ℕ
blocking = record {
  id = codes "reliability.blocking";
  metric_id = none;
  metric = codes "Blocked";
  comparator = ge;
  threshold = fixed 1;
  severity = warning;
  enabled = true;
  source = [];
}

abbrev telemetry : ℕ → Telemetry ℕ
telemetry i = record {
  latest_cpu_pressure = none;
  latest_signal_wait_pct = none;
  latest_memory_headroom = none;
  latest_plan_cache = none;
  latest_tempdb_contention = none;
  latest_io_latency = [];
  deadlocks_since = pos 0;
  latest_blocked_sessions = some (pos 4);
}

abbrev sample : MetricSnapshot ℕ
sample = record {
  cpu_runnable_tasks_avg = some 12;
  cpu_signal_wait_pct = some 35;
  memory_ple_secs = some 299;
  buffer_pool_gb = some 8;
  pending_memory_grants = none;
  plancache_singleuse_pct = some 20;
  tempdb_pagelatch_waiters = some 9;
  io_data_latency_ms = some 150;
  io_log_write_latency_ms = some 5;
  deadlocks = some 0;
  blocked_sessions = some 4;
}

abbrev config : AlertConfig ℕ
config = record {
  webhook_url = none;
  webhook_format = generic;
  cooldown_secs = 900;
  rules = blocking ∷ [];
}

abbrev working : Env ℕ
working = record {
  instance_id_of = λ name. some 7;
  read_fails = λ rows rule. false;
  insert_fails = λ rows a. false;
  mark_fails = λ id. false;
  new_id = λ rows. 1;
  notify_webhook = λ url a name format. true;
}

abbrev at_pass : ℕ → List (AlertRow ℕ) → List (AlertRow ℕ)
at_pass now rows = evaluate_instance working (codes "prod") config whole telemetry now rows

-- A disarmed rule is silent.
disarmed : evaluate_alert whole (record blocking { enabled = false }) sample ≡ none
unfolding evaluate_alert
disarmed = refl

-- The signal waits and the log latency are at their limits, not above.
sample_rules :
    map {B = ℕ × ℕ} (λ a. (a.value, a.threshold)) (evaluate_all whole (default_rules whole) sample)
    ≡ (12, 10) ∷ (299, 600) ∷ (20, 20) ∷ (150, 20) ∷ (150, 100) ∷ (4, 1) ∷ []
unfolding evaluate_all default_rules
sample_rules = refl

default_rules-fire_example :
    map row_of (evaluate_all whole (default_rules whole) sample)
    ≡ expected_rows whole sample (some 600)
default_rules-fire_example = default_rules-fire whole sample

-- A first fire, silence inside the cooldown, and a second fire behind it.
two_fires : (spaced 900 (at_pass 1000000 (at_pass 500000 (at_pass 100000 []))) ≡ true)
unfolding evaluate_instance
two_fires = refl

abbrev lck : Bytes
lck = codes "LCK_M_X"

abbrev totals_at : ℕ → Snapshot
totals_at n = (lck, record { tasks = 1; total = n; signal = 0 }) ∷ []

-- A row without a wait type is skipped.
abbrev waits_at : ℕ → List WaitRow
waits_at n =
    record {
      wait_type = none;
      waiting_tasks_count = some 9;
      wait_time_ms = none;
      signal_wait_time_ms = none;
    }
    ∷ record {
      wait_type = some lck;
      waiting_tasks_count = some 1;
      wait_time_ms = some n;
      signal_wait_time_ms = none;
    }
    ∷ []

polls-waited_example :
    waited lck
        (polls
          ((300000, waits_at 40) ∷ (600000, waits_at 90) ∷ [])
          (record { rows = []; snapshot = some (totals_at 10, 0) })).rows
      + 10
    ≡ 90
unfolding has_decreased gather_totals get_or get eq_bytes
polls-waited_example =
    polls-waited lck (totals_at 10) (totals_at 90) 0 (record { tasks = 1; total = 10; signal = 0 })
      ((300000, waits_at 40) ∷ (600000, waits_at 90) ∷ []) [] refl
      (poll 300000 (waits_at 40) (omega arith) (omega arith) refl refl
        (poll 600000 (waits_at 90) (omega arith) (omega arith) refl refl last))

-- A type without prior totals is counted from 0.
new_type : waited lck (delta_rows (λ row. false) 300000 [] (totals_at 40)) ≡ 40
unfolding delta_rows
new_type = refl

-- A poll behind too long a gap adds nothing.
too_late :
    (poll_wait_stats true
      (rows_of (waits_at 40))
      (λ row. false)
      false
      3600001
      (record { rows = []; snapshot = some (totals_at 10, 0) })).1.rows
    ≡ []
unfolding poll_wait_stats
too_late = refl
