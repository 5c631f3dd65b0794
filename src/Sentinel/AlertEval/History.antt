-- ===== src/Sentinel/AlertEval/History.antt =====
-- Histories of passes, and what a pass leaves in the table.
use dbopt.Base.{ℕ, ◌≤◌, ◌≡◌, Bool, false, not, ◌&&◌, ◌||◌, List, [], ◌==◌, any}
use dbopt.Base.Bytes.{Bytes}
use dbopt.Sentinel.Floats.{Floats}
use dbopt.Sentinel.Alerts.{FiredAlert}
use dbopt.Sentinel.Alerts.Rules.{AlertConfig}
use dbopt.Sentinel.AlertStore.{AlertRow, cooldown_over, is_fire_of}
use dbopt.Sentinel.AlertEval.{Telemetry, Env, evaluate_instance}

module _ {F : Type 0} where
  -- The tables that passes under one cooldown give, each at its time: any instance, rules, webhook
  -- and telemetry, as long as the queries work and the clock does not run backwards.
  pub data Reached (cd : ℕ) : ℕ → List (AlertRow F) → Type 0 where
    start : Reached cd 0 []
    pass :
        {t : ℕ} {rows : List (AlertRow F)} (now : ℕ) (env : Env F) (instance_name : Bytes)
        (config : AlertConfig F) (fl : Floats F) (telemetry : ℕ → Telemetry F)
        → t ≤ now
        → config.cooldown_secs ≡ cd
        → ((rows : List (AlertRow F)) (rule : Bytes) → env.read_fails rows rule ≡ false)
        → Reached cd t rows
        → Reached cd now (evaluate_instance env instance_name config fl telemetry now rows)

  -- The rule fired on the instance at this time, or within the cooldown before it.
  abbrev pub alerted_row : ℕ → ℕ → ℕ → Bytes → AlertRow F → Bool
  alerted_row cd i now rule r =
      is_fire_of i rule r && (r.fired_at == now || not (cooldown_over r.fired_at now cd))

  abbrev pub alerted : ℕ → ℕ → ℕ → List (AlertRow F) → FiredAlert F → Bool
  alerted cd i now rows a = any (alerted_row cd i now a.rule_id) rows
