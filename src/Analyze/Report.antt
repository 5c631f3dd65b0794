-- ===== src/Analyze/Report.antt =====
-- What `analyze` reports, described without its code.
use mathlib.Core.List.{Perm}
use dbopt.Base.{
  ℕ, ◌≡◌, refl, ap, subst, Bool, true, false, not, ◌&&◌, ◌||◌, Bool-cases, inl, inr, Option, none,
  some, List, [], ◌∷◌, ◌++◌, ltb, leb, ◌==◌, if◌then◌else◌, any, arith,
}
use dbopt.Base.Bytes.{Bytes}
use dbopt.Tokens.{tokenize}
use dbopt.Findings.{Severity, info, warning, error, critical, Finding, rank}
use dbopt.Order.{compare_nat, then_by, is_gt}
use dbopt.Order.Laws.{
  IsSorted, flip, sort_by-IsSorted, sort_by-perm, then_by-flip, compare_nat-flip,
}
use dbopt.Analyze.{
  Engine, sql_server, postgres, my_sql, AnalyzeInput, Rule, RuleCtx, PlanResult, derived, unparsed,
  eq_engine, parse_error, start_of, compare_keys, run_rules, run_all, sql_findings, plan_findings,
  dmv_findings, analyze,
}

-- How grave a finding is.
abbrev pub gravity : Severity → ℕ
gravity critical = 4
gravity error = 3
gravity warning = 2
gravity info = 1

-- The first is graver, or as grave and no further behind; without a place it stands at the start.
abbrev pub in_order : Finding → Finding → Bool
in_order a b =
    ltb (gravity b.severity) (gravity a.severity)
    || (gravity a.severity == gravity b.severity && leb (place a) (place b))
  where
    place : Finding → ℕ
    place f = elim f.location [ none ↦ 0 | some l ↦ l.start ]

abbrev pub all_in_order : List Finding → Bool
all_in_order [] = true
all_in_order (a ∷ []) = true
all_in_order (a ∷ b ∷ fs) = in_order a b && all_in_order (b ∷ fs)

-- The engines that a rule is for hold this one.
abbrev pub is_for : Engine → List Engine → Bool
is_for e [] = false
is_for sql_server (sql_server ∷ es) = true
is_for postgres (postgres ∷ es) = true
is_for my_sql (my_sql ∷ es) = true
is_for e (f ∷ es) = is_for e es

-- The findings of the rules for the engine, rule by rule.
abbrev pub found_by : RuleCtx → List Rule → List Finding
found_by ctx [] = []
found_by ctx (rule ∷ rules) =
    (if is_for ctx.engine rule.engines then rule.run ctx else []) ++ found_by ctx rules

module _ {Bundle : Type 0} (registry : List Rule) (plan : Bytes → PlanResult)
    (advise : Bundle → List Finding) where
  -- The rules on the tokens of the script, for SQL Server if no engine is named; the findings of the
  -- plan, or one that it cannot be parsed; and the advice on the bundle.
  abbrev pub expected : AnalyzeInput Bundle → List Finding
  expected input =
      elim input.sql as (λ o. List Finding) [ none ↦ [] | some sql ↦ found_by (ctx sql) registry ]
      ++ elim input.plan_xml as (λ o. List Finding) [
        | none ↦ []
        | some xml ↦ elim (plan xml) as (λ o. List Finding) [
          | derived fs ↦ fs
          | unparsed e ↦ parse_error e ∷ []
        ]
      ]
      ++ elim input.dmv_bundle as (λ o. List Finding) [ none ↦ [] | some bundle ↦ advise bundle ]
    where
      ctx : Bytes → RuleCtx
      ctx sql = record {
        src = sql;
        tokens = tokenize sql;
        server_version = input.server_version;
        engine = elim input.engine [ none ↦ sql_server | some e ↦ e ];
      }

is_for-any : (e : Engine) (es : List Engine) → any (eq_engine e) es ≡ is_for e es
is_for-any e [] = refl
is_for-any sql_server (sql_server ∷ es) = refl
is_for-any postgres (postgres ∷ es) = refl
is_for-any my_sql (my_sql ∷ es) = refl
is_for-any sql_server (postgres ∷ es) = is_for-any sql_server es
is_for-any sql_server (my_sql ∷ es) = is_for-any sql_server es
is_for-any postgres (sql_server ∷ es) = is_for-any postgres es
is_for-any postgres (my_sql ∷ es) = is_for-any postgres es
is_for-any my_sql (sql_server ∷ es) = is_for-any my_sql es
is_for-any my_sql (postgres ∷ es) = is_for-any my_sql es

run_rules-found_by : (ctx : RuleCtx) (rules : List Rule) → run_rules ctx rules ≡ found_by ctx rules
unfolding run_rules
run_rules-found_by ctx [] = refl
run_rules-found_by ctx (rule ∷ rules) =
    let more = run_rules-found_by ctx rules in
    let same = is_for-any ctx.engine rule.engines in
    elim (Bool-cases (is_for ctx.engine rule.engines)) [
      | inl e ↦ rw (same, e) (ap (◌++◌ (rule.run ctx)) more)
      | inr e ↦ rw (same, e) more
    ]

ranks-gravity :
    (s t : Severity) (m n : ℕ)
    → is_gt (then_by (compare_nat (rank s) (rank t)) (compare_nat m n))
      ≡ not (ltb (gravity t) (gravity s) || (gravity s == gravity t && leb m n))
unfolding then_by compare_nat
ranks-gravity s t m n = ground arith

compare_keys-in_order : (a b : Finding) → is_gt (compare_keys a b) ≡ not (in_order a b)
unfolding compare_keys
compare_keys-in_order a b = ranks-gravity a.severity b.severity (start_of a) (start_of b)

IsSorted-in_order : (fs : List Finding) → IsSorted compare_keys fs → all_in_order fs ≡ true
IsSorted-in_order [] h = refl
IsSorted-in_order (a ∷ []) h = refl
IsSorted-in_order (a ∷ b ∷ fs) h =
    let here = compare_keys-in_order a b in
    let now : in_order a b ≡ true = ground (arith, here, h.0) in
    rw (now, IsSorted-in_order (b ∷ fs) h.1)

compare_keys-flip : (a b : Finding) → compare_keys b a ≡ flip (compare_keys a b)
unfolding compare_keys
compare_keys-flip a b =
    then_by-flip (compare_nat (rank a.severity) (rank b.severity)) _ _ _
      (compare_nat-flip (rank a.severity) (rank b.severity))
      (compare_nat-flip (start_of a) (start_of b))

module _ {Bundle : Type 0} (registry : List Rule) (plan : Bytes → PlanResult)
    (advise : Bundle → List Finding) where
  sql-found_by :
      (input : AnalyzeInput Bundle) (o : Option Bytes)
      → sql_findings registry plan advise (record input { sql = o })
        ≡ (elim o as (λ x. List Finding) [
          | none ↦ []
          | some sql ↦
              found_by
                (record {
                  src = sql;
                  tokens = tokenize sql;
                  server_version = input.server_version;
                  engine = elim input.engine [ none ↦ sql_server | some e ↦ e ];
                })
                registry
        ])
  unfolding run_all
  sql-found_by input none = refl
  sql-found_by input (some sql) = run_rules-found_by _ registry

  parts-expected :
      (input : AnalyzeInput Bundle)
      → sql_findings registry plan advise input
          ++ plan_findings registry plan advise input
          ++ dmv_findings registry plan advise input
        ≡ expected registry plan advise input
  unfolding run_all
  parts-expected input =
      ap
        (λ l.
          l ++ plan_findings registry plan advise input ++ dmv_findings registry plan advise input)
        (sql-found_by input input.sql)

  -- The report holds, each as often as it is found, the findings of the rules that are for the engine on
  -- the tokens of the script, those of the plan or one that it cannot be parsed, and the advice on the
  -- bundle, and no others; graver ones come first, and of equally grave ones that which starts first.
  pub analyze-findings :
      (input : AnalyzeInput Bundle)
      → Perm (analyze registry plan advise input).findings (expected registry plan advise input)
        × (all_in_order (analyze registry plan advise input).findings ≡ true)
  unfolding analyze
  analyze-findings input =
      let all =
        sql_findings registry plan advise input
        ++ plan_findings registry plan advise input
        ++ dmv_findings registry plan advise input in
      (
        subst (Perm (analyze registry plan advise input).findings) (parts-expected input)
            (sort_by-perm compare_keys all),
        IsSorted-in_order (analyze registry plan advise input).findings
            (sort_by-IsSorted compare_keys compare_keys-flip all),
      )
