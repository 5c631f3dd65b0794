-- ===== src/Sentinel/AlertStore.antt =====
-- crates/sentinel/src/storage.rs: the table `alerts_fired` and the methods of `Storage` that the pass
-- over the alert rules calls. The table is a list of rows, the newest first; what SQLite decides is
-- a parameter: the id of a new row, and which statements fail. Times are in milliseconds, and none is
-- before 1970.
use dbopt.Base.{
  ℕ, ◌-◌, ◌/◌, Bool, true, false, not, ◌&&◌, ◌||◌, Option, none, some, List, [], ◌∷◌, ltb, leb,
  ◌==◌, if◌then◌else◌, map,
}
use dbopt.Base.Bytes.{Bytes, eq_bytes}
use dbopt.Sentinel.Alerts.{FiredAlert, severity_str}

pub record AlertRow (F : Type 0) : Type 0 where
  pub id : ℕ
  pub instance_id : ℕ
  pub fired_at : ℕ
  pub rule_id : Bytes
  pub metric : Bytes
  pub value : F
  pub threshold : F
  pub severity : Bytes
  pub message : Bytes
  pub notified : Bool

-- `elapsed >= cooldown_secs as i64`; the cast makes a cooldown from 2^63 on negative.
unfoldable pub cooldown_over : ℕ → ℕ → ℕ → Bool
cooldown_over prev now cooldown_secs =
    not (ltb cooldown_secs 9223372036854775808) || leb cooldown_secs ((now - prev) / 1000)

abbrev pub later_of : ℕ → Option ℕ → ℕ
later_of t none = t
later_of t (some u) = if ltb t u then u else t

module _ {F : Type 0} where
  -- `WHERE instance_id = ?1 AND rule_id = ?2`
  unfoldable pub is_fire_of : ℕ → Bytes → AlertRow F → Bool
  unfolding eq_bytes
  is_fire_of instance_id rule_id r = r.instance_id == instance_id && eq_bytes r.rule_id rule_id

  -- `SELECT MAX(fired_at)`
  unfoldable pub last_fired : ℕ → Bytes → List (AlertRow F) → Option ℕ
  unfolding is_fire_of
  last_fired instance_id rule_id [] = none
  last_fired instance_id rule_id (r ∷ rows) =
      let later = last_fired instance_id rule_id rows in
      if is_fire_of instance_id rule_id r then some (later_of r.fired_at later) else later

  -- Storage::should_fire_alert; the flag says that the query failed.
  unfoldable pub should_fire_alert : Bool → List (AlertRow F) → ℕ → Bytes → ℕ → ℕ → Bool
  unfolding last_fired cooldown_over
  should_fire_alert failed rows instance_id rule_id now cooldown_secs =
      if failed then true else elim (last_fired instance_id rule_id rows) [
        | none ↦ true
        | some prev ↦ cooldown_over prev now cooldown_secs
      ]

  -- Storage::insert_fired_alert, for the id that the table gives.
  unfoldable pub insert_fired_alert :
      ℕ → ℕ → ℕ → FiredAlert F → List (AlertRow F) → List (AlertRow F)
  unfolding severity_str
  insert_fired_alert id instance_id fired_at a rows =
      record {
        id = id;
        instance_id = instance_id;
        fired_at = fired_at;
        rule_id = a.rule_id;
        metric = a.metric;
        value = a.value;
        threshold = a.threshold;
        severity = severity_str a.severity;
        message = a.message;
        notified = false;
      }
      ∷ rows

  abbrev pub marked : ℕ → AlertRow F → AlertRow F
  marked id r = if r.id == id then record r { notified = true } else r

  -- Storage::mark_alert_notified
  unfoldable pub mark_alert_notified : ℕ → List (AlertRow F) → List (AlertRow F)
  mark_alert_notified id rows = map (marked id) rows
