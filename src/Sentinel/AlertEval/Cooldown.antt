-- ===== src/Sentinel/AlertEval/Cooldown.antt =====
-- The cooldown between two fires of one rule on one instance, over any history of passes.
use dbopt.Base.{
  ℕ, ◌≤◌, ◌≡◌, refl, sym, ap, ◌∙◌, Bool, true, false, not, ◌&&◌, ◌||◌, Bool-cases, Option, none,
  some, List, [], ◌∷◌, leb, ◌==◌, all, map, if◌then◌else◌, if_cases, option_cases, inl, inr, arith,
}
use dbopt.Base.Bytes.{Bytes}
use dbopt.Sentinel.Floats.{Floats}
use dbopt.Sentinel.Alerts.{FiredAlert, evaluate_all}
use dbopt.Sentinel.Alerts.Rules.{AlertConfig}
use dbopt.Sentinel.AlertStore.{
  AlertRow, cooldown_over, is_fire_of, later_of, last_fired, should_fire_alert, insert_fired_alert,
  marked, mark_alert_notified,
}
use dbopt.Sentinel.AlertEval.{
  Telemetry, Env, build_snapshot, delivered, record_breach, record_breaches, evaluate_instance,
}

cooldown_over-later_of :
    (t u now cd : ℕ)
    → cooldown_over (later_of t (some u)) now cd
      ≡ (cooldown_over t now cd && cooldown_over u now cd)
unfolding cooldown_over
cooldown_over-later_of t u now cd = ground arith

module _ {F : Type 0} where
  -- The row is of another rule or instance, or fired long enough ago.
  abbrev pub out_of_cooldown : ℕ → Bytes → ℕ → ℕ → AlertRow F → Bool
  out_of_cooldown instance_id rule_id now cd r =
      not (is_fire_of instance_id rule_id r) || cooldown_over r.fired_at now cd

  last_over :
      (rows : List (AlertRow F)) (instance_id : ℕ) (rule_id : Bytes) (now cd : ℕ)
      → (elim (last_fired instance_id rule_id rows) [
        | none ↦ true
        | some prev ↦ cooldown_over prev now cd
      ])
        ≡ all (out_of_cooldown instance_id rule_id now cd) rows
  unfolding last_fired
  last_over [] i rule now cd = refl
  last_over (r ∷ rows) i rule now cd =
      step (last_fired i rule rows) (is_fire_of i rule r) (last_over rows i rule now cd)
    where
      step :
          (later : Option ℕ) (b : Bool)
          → (elim later [ none ↦ true | some prev ↦ cooldown_over prev now cd ])
            ≡ all (out_of_cooldown i rule now cd) rows
          → (elim (if b then some (later_of r.fired_at later) else later) [
            | none ↦ true
            | some prev ↦ cooldown_over prev now cd
          ])
            ≡ ((not b || cooldown_over r.fired_at now cd)
                && all (out_of_cooldown i rule now cd) rows)
      step none true h = ground (arith, h)
      step none false h = h
      step (some u) true h =
          cooldown_over-later_of r.fired_at u now cd
          ∙ ap (λ x. cooldown_over r.fired_at now cd && x) h
      step (some u) false h = h

  pub should_fire_alert-all :
      (rows : List (AlertRow F)) (instance_id : ℕ) (rule_id : Bytes) (now cd : ℕ)
      → should_fire_alert false rows instance_id rule_id now cd
        ≡ all (out_of_cooldown instance_id rule_id now cd) rows
  unfolding should_fire_alert
  should_fire_alert-all rows i rule now cd = last_over rows i rule now cd

  -- Every fire is at least the cooldown behind each earlier one of the same rule and instance.
  abbrev pub spaced : ℕ → List (AlertRow F) → Bool
  spaced cd [] = true
  spaced cd (r ∷ rows) =
      all (out_of_cooldown r.instance_id r.rule_id r.fired_at cd) rows && spaced cd rows

  abbrev pub past : ℕ → List (AlertRow F) → Bool
  past now rows = all (λ r. leb r.fired_at now) rows

  all-marked :
      (p : AlertRow F → Bool) (id : ℕ) (rows : List (AlertRow F))
      → ((r : AlertRow F) → p (marked id r) ≡ p r)
      → all p (map (marked id) rows) ≡ all p rows
  all-marked p id [] h = refl
  all-marked p id (r ∷ rows) h = rw (h r, all-marked p id rows h)

  out_of_cooldown-marked :
      (i : ℕ) (rule : Bytes) (now cd id : ℕ) (r : AlertRow F)
      → out_of_cooldown i rule now cd (marked id r) ≡ out_of_cooldown i rule now cd r
  unfolding is_fire_of
  out_of_cooldown-marked i rule now cd id r = elim (Bool-cases (r.id == id)) [
    | inl e ↦ rw e
    | inr e ↦ rw e
  ]

  marked_head :
      (cd id : ℕ) (r : AlertRow F) (rows : List (AlertRow F))
      → all
          (out_of_cooldown
            (marked id r).instance_id
            (marked id r).rule_id
            (marked id r).fired_at
            cd)
          rows
        ≡ all (out_of_cooldown r.instance_id r.rule_id r.fired_at cd) rows
  marked_head cd id r rows = elim (Bool-cases (r.id == id)) [ inl e ↦ rw e | inr e ↦ rw e ]

  spaced-marked :
      (cd id : ℕ) (rows : List (AlertRow F)) → spaced cd (map (marked id) rows) ≡ spaced cd rows
  spaced-marked cd id [] = refl
  spaced-marked cd id (r ∷ rows) = rw (
    marked_head cd id r (map (marked id) rows),
    all-marked (out_of_cooldown r.instance_id r.rule_id r.fired_at cd) id rows
        (out_of_cooldown-marked r.instance_id r.rule_id r.fired_at cd id),
    spaced-marked cd id rows,
  )

  past-marked :
      (now id : ℕ) (rows : List (AlertRow F)) → past now (map (marked id) rows) ≡ past now rows
  past-marked now id rows =
      all-marked (λ r. leb r.fired_at now) id rows
        (λ r. elim (Bool-cases (r.id == id)) [ inl e ↦ rw e | inr e ↦ rw e ])

  pub past-later :
      (t now : ℕ) (rows : List (AlertRow F)) → t ≤ now → past t rows ≡ true → past now rows ≡ true
  past-later t now [] h p = refl
  past-later t now (r ∷ rows) h p = ground (arith, past-later t now rows h)

  -- The table keeps the cooldown, and no row is later than the time.
  pub record Kept (cd now : ℕ) (rows : List (AlertRow F)) : Type 0 where
    pub apart : spaced cd rows ≡ true
    pub before : past now rows ≡ true

  -- What holds of the table on every branch of `record_breach` holds of its result.
  pub record_breach_cases :
      (env : Env F) (instance_name : Bytes) (config : AlertConfig F) (i now : ℕ)
      (rows : List (AlertRow F)) (a : FiredAlert F) (P : List (AlertRow F) → Type 0)
      → (should_fire_alert (env.read_fails rows a.rule_id) rows i a.rule_id now config.cooldown_secs
            ≡ false
          → P rows)
      → (env.insert_fails rows a ≡ true → P rows)
      → (should_fire_alert (env.read_fails rows a.rule_id) rows i a.rule_id now config.cooldown_secs
            ≡ true
          → P (insert_fired_alert (env.new_id rows) i now a rows))
      → (should_fire_alert (env.read_fails rows a.rule_id) rows i a.rule_id now config.cooldown_secs
            ≡ true
          → P (
              mark_alert_notified
                (env.new_id rows)
                (insert_fired_alert (env.new_id rows) i now a rows)))
      → P (record_breach env instance_name config i now rows a)
  unfolding record_breach
  record_breach_cases env name config i now rows a P standing lost added told =
      let id = env.new_id rows in
      let inserted = insert_fired_alert id i now a rows in
      elim (Bool-cases (
        should_fire_alert (env.read_fails rows a.rule_id) rows i a.rule_id now
          config.cooldown_secs)) [
            | inr e ↦ rw e (standing e)
            | inl e ↦
                let sent = delivered env name config a && not (env.mark_fails id) in
                rw e (
                  if_cases P (env.insert_fails rows a) rows
                    (if sent then mark_alert_notified id inserted else inserted) lost
                    (λ f.
                      if_cases P sent (mark_alert_notified id inserted) inserted (λ g. told e)
                        (λ g. added e)))
          ]

  module _ (env : Env F) (instance_name : Bytes) (config : AlertConfig F)
      (reads : (rows : List (AlertRow F)) (rule : Bytes) → env.read_fails rows rule ≡ false) where
    inserted-Kept :
        (i now id : ℕ) (rows : List (AlertRow F)) (a : FiredAlert F)
        → should_fire_alert false rows i a.rule_id now config.cooldown_secs ≡ true
        → Kept config.cooldown_secs now rows
        → Kept config.cooldown_secs now (insert_fired_alert id i now a rows)
    unfolding insert_fired_alert
    inserted-Kept i now id rows a fire k =
        let over = sym (should_fire_alert-all rows i a.rule_id now config.cooldown_secs) ∙ fire in
        record { apart = rw (over, k.apart); before = ground (arith, k.before) }

    marked-Kept :
        (now id : ℕ) (rows : List (AlertRow F))
        → Kept config.cooldown_secs now rows
        → Kept config.cooldown_secs now (mark_alert_notified id rows)
    unfolding mark_alert_notified
    marked-Kept now id rows k = record {
      apart = spaced-marked config.cooldown_secs id rows ∙ k.apart;
      before = past-marked now id rows ∙ k.before;
    }

    record_breach-Kept :
        (i now : ℕ) (rows : List (AlertRow F)) (a : FiredAlert F)
        → Kept config.cooldown_secs now rows
        → Kept config.cooldown_secs now (record_breach env instance_name config i now rows a)
    record_breach-Kept i now rows a k =
        let id = env.new_id rows in
        record_breach_cases env instance_name config i now rows a (Kept config.cooldown_secs now)
          (λ e. k) (λ e. k) (λ e. inserted-Kept i now id rows a (rw (reads rows a.rule_id) at e) k)
          (λ e.
            marked-Kept now id (insert_fired_alert id i now a rows)
              (inserted-Kept i now id rows a (rw (reads rows a.rule_id) at e) k))

    record_breaches-Kept :
        (i now : ℕ) (rows : List (AlertRow F)) (breaches : List (FiredAlert F))
        → Kept config.cooldown_secs now rows
        → Kept config.cooldown_secs now
            (record_breaches env instance_name config i now rows breaches)
    unfolding record_breaches
    record_breaches-Kept i now rows [] k = k
    record_breaches-Kept i now rows (a ∷ breaches) k =
        record_breaches-Kept i now (record_breach env instance_name config i now rows a) breaches
          (record_breach-Kept i now rows a k)

    pub evaluate_instance-Kept :
        (fl : Floats F) (telemetry : ℕ → Telemetry F) (now : ℕ) (rows : List (AlertRow F))
        → Kept config.cooldown_secs now rows
        → Kept config.cooldown_secs now
            (evaluate_instance env instance_name config fl telemetry now rows)
    unfolding evaluate_instance
    evaluate_instance-Kept fl telemetry now rows k =
        option_cases (Kept config.cooldown_secs now) (env.instance_id_of instance_name) rows
          (λ i.
            record_breaches env instance_name config i now rows
              (evaluate_all fl config.rules (build_snapshot fl (telemetry i))))
          (λ n. k)
          (λ i e.
            record_breaches-Kept i now rows
              (evaluate_all fl config.rules (build_snapshot fl (telemetry i))) k)
