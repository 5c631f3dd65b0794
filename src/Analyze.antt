-- ===== src/Analyze.antt =====
-- crates/analyzer-core/src/lib.rs: `analyze`, and the loop over the registry of the rules from
-- crates/analyzer-core/src/rules/mod.rs. The rules themselves, the plan analyzer and the DMV advisor
-- are parameters, and the report has its findings and its timeline.
pub mod Report
mod Tests
use dbopt.Base.{
  ℕ, Bool, true, false, not, Option, none, some, List, [], ◌∷◌, ◌++◌, if◌then◌else◌, any,
}
use dbopt.Base.Bytes.{Bytes, codes}
use dbopt.Tokens.{Token, tokenize}
use dbopt.Findings.{Severity, error, rank, Finding}
use dbopt.Charts.{SeverityBucket, severity_timeline}
use dbopt.Order.{Cmp, then_by, compare_nat, sort_by}

pub data Engine : Type 0 where
  sql_server postgres my_sql : Engine

pub record AnalyzeInput (Bundle : Type 0) : Type 0 where
  pub sql : Option Bytes
  pub plan_xml : Option Bytes
  pub dmv_bundle : Option Bundle
  pub server_version : Option ℕ
  pub engine : Option Engine

-- AnalyzeInput::default
abbrev pub no_input : {Bundle : Type 0} → AnalyzeInput Bundle
no_input = record {
  sql = none;
  plan_xml = none;
  dmv_bundle = none;
  server_version = none;
  engine = none;
}

pub record RuleCtx : Type 0 where
  pub src : Bytes
  pub tokens : List Token
  pub server_version : Option ℕ
  pub engine : Engine

pub record Rule : Type 0 where
  pub run : RuleCtx → List Finding
  pub engines : List Engine

abbrev pub eq_engine : Engine → Engine → Bool
eq_engine sql_server sql_server = true
eq_engine postgres postgres = true
eq_engine my_sql my_sql = true
eq_engine _ _ = false

-- The loop of `run_all`.
unfoldable pub run_rules : RuleCtx → List Rule → List Finding
run_rules ctx [] = []
run_rules ctx (rule ∷ rules) =
    let rest = run_rules ctx rules in
    if not (any (eq_engine ctx.engine) rule.engines) then rest else rule.run ctx ++ rest

unfoldable pub run_all : List Rule → Bytes → List Token → Option ℕ → Engine → List Finding
unfolding run_rules
run_all registry src tokens server_version engine =
    run_rules
      (record { src = src; tokens = tokens; server_version = server_version; engine = engine })
      registry

-- What `plan_xml::parse` gives: the findings derived from the plan, or the text of the error.
pub data PlanResult : Type 0 where
  derived : List Finding → PlanResult
  unparsed : Bytes → PlanResult

pub record AnalysisReport : Type 0 where
  pub findings : List Finding
  pub severity_timeline : List SeverityBucket

unfoldable pub parse_error : Bytes → Finding
parse_error e = record {
  rule = codes "plan_xml.parse_error";
  severity = error;
  message = codes "Could not parse execution plan XML: " ++ e;
  location = none;
  recommendation = none;
  object = none;
}

abbrev pub start_of : Finding → ℕ
start_of f = elim f.location [ none ↦ 0 | some l ↦ l.start ]

-- The order of the keys of `sort_by_key`.
unfoldable pub compare_keys : Finding → Finding → Cmp
unfolding then_by compare_nat
compare_keys a b =
    then_by (compare_nat (rank a.severity) (rank b.severity))
      (compare_nat (start_of a) (start_of b))

abbrev engine_of : {Bundle : Type 0} → AnalyzeInput Bundle → Engine
engine_of input = elim input.engine [ none ↦ sql_server | some e ↦ e ]

module _ {Bundle : Type 0} (registry : List Rule) (plan : Bytes → PlanResult)
    (advise : Bundle → List Finding) where
  abbrev pub sql_findings : AnalyzeInput Bundle → List Finding
  sql_findings input = elim input.sql [
    | none ↦ []
    | some sql ↦ run_all registry sql (tokenize sql) input.server_version (engine_of input)
  ]

  abbrev planned : PlanResult → List Finding
  planned (derived fs) = fs
  planned (unparsed e) = parse_error e ∷ []

  abbrev pub plan_findings : AnalyzeInput Bundle → List Finding
  plan_findings input = elim input.plan_xml [ none ↦ [] | some xml ↦ planned (plan xml) ]

  abbrev pub dmv_findings : AnalyzeInput Bundle → List Finding
  dmv_findings input = elim input.dmv_bundle [ none ↦ [] | some bundle ↦ advise bundle ]

  unfoldable pub analyze : AnalyzeInput Bundle → AnalysisReport
  unfolding run_all parse_error sort_by compare_keys severity_timeline tokenize
  analyze input = record {
    findings =
        sort_by compare_keys (sql_findings input ++ plan_findings input ++ dmv_findings input);
    severity_timeline = elim input.sql [
      | none ↦ []
      | some sql ↦ severity_timeline sql (sql_findings input)
    ];
  }
