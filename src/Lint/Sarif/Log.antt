-- ===== src/Lint/Sarif/Log.antt =====
-- crates/analyzer-cli/src/lint.rs: the results of the SARIF log, `uri_for`, and `build_sarif`.
use dbopt.Base.{ℕ, Bool, Option, none, some, List, ◌++◌, map, ◌==◌, if◌then◌else◌}
use dbopt.Base.Bytes.{Bytes, codes, starts_with, strip_prefix}
use dbopt.Base.Text.{is_empty, trim}
use dbopt.Findings.{Finding}
use dbopt.Lint.{FileFinding}
use dbopt.Lint.Cap.{cap_per_rule}
use dbopt.Lint.Sarif.{
  severity_label, sarif_level, RuleDoc, Descriptor, Catalog, no_rules, index_of, replace_byte,
  catalog_from,
}

-- `f.recommendation.as_deref().map(str::trim).filter(|r| !r.is_empty())`
unfoldable pub recommendation_of : Finding → Option Bytes
unfolding trim
recommendation_of f = elim f.recommendation [
  | none ↦ none
  | some r ↦ if is_empty (trim r) then none else some (trim r)
]

pub record SarifMessage : Type 0 where
  pub text : Bytes
  pub markdown : Option Bytes

unfoldable pub sarif_result_message : Finding → SarifMessage
unfolding recommendation_of
sarif_result_message f = elim (recommendation_of f) [
  | some rec ↦ record {
    text = f.message ++ codes "\n\nRecommendation: " ++ rec;
    markdown = some (f.message ++ codes "\n\n**Recommendation:** " ++ rec);
  }
  | none ↦ record { text = f.message; markdown = none }
]

-- Relative to the current directory, where it is known and the path lies in it.
abbrev relative_to : Option Bytes → Bytes → Option Bytes
relative_to none norm = none
relative_to (some cwd) norm = strip_prefix (replace_byte b'\\' b'/' cwd ++ codes "/") norm

unfoldable pub uri_for : Option Bytes → Bytes → Bytes
unfolding strip_prefix starts_with
uri_for cwd path =
    let norm = replace_byte b'\\' b'/' path in
    if starts_with (codes "<") norm then norm else elim (relative_to cwd norm) [
      | some rel ↦ rel
      | none ↦ if starts_with (codes "/") norm then codes "file://" ++ norm else norm
    ]

pub record SarifResult : Type 0 where
  pub rule_id : Bytes
  pub rule_index : ℕ
  pub level : Bytes
  pub message : SarifMessage
  pub severity : Bytes
  pub recommendation : Option Bytes
  pub uri : Bytes
  pub start_line : ℕ
  pub start_column : ℕ

-- `n.max(1)`
abbrev at_least_one : ℕ → ℕ
at_least_one n = if n == 0 then 1 else n

unfoldable pub sarif_result : Option Bytes → Catalog → FileFinding → SarifResult
unfolding index_of recommendation_of sarif_result_message uri_for
sarif_result cwd cat ff = record {
  rule_id = ff.finding.rule;
  rule_index = elim (index_of ff.finding.rule cat.rule_index) [ none ↦ 0 | some n ↦ n ];
  level = sarif_level ff.finding.severity;
  message = sarif_result_message ff.finding;
  severity = severity_label ff.finding.severity;
  recommendation = recommendation_of ff.finding;
  uri = uri_for cwd ff.path;
  start_line = elim ff.finding.location [ none ↦ 1 | some l ↦ at_least_one l.line ];
  start_column = elim ff.finding.location [ none ↦ 1 | some l ↦ at_least_one l.col ];
}

-- A file that could not be read.
pub record Notification : Type 0 where
  pub level : Bytes
  pub text : Bytes
  pub uri : Bytes

abbrev notification : Option Bytes → Bytes × Bytes → Notification
notification cwd e = record {
  level = codes "error";
  text = codes "could not read " ++ e.0 ++ codes ": " ++ e.1;
  uri = uri_for cwd e.0;
}

pub record SarifLog : Type 0 where
  pub schema : Bytes
  pub version : Bytes
  pub driver_name : Bytes
  pub information_uri : Bytes
  pub driver_version : Bytes
  pub rules : List Descriptor
  pub results : List SarifResult
  pub execution_successful : Bool
  pub notifications : List Notification

module _ (docs : List (Bytes × RuleDoc)) (package_version : Bytes) (cwd : Option Bytes) where
  unfoldable pub build_sarif : List FileFinding → List (Bytes × Bytes) → ℕ → SarifLog
  unfolding cap_per_rule catalog_from sarif_result uri_for
  build_sarif all read_errors max_per_rule =
      let cat = catalog_from docs no_rules all in
      record {
        schema =
            codes
              "https://raw.githubusercontent.com/oasis-tcs/sarif-spec/main/sarif-2.1/schema/sarif-schema-2.1.0.json";
        version = codes "2.1.0";
        driver_name = codes "dbopt";
        information_uri = codes "https://github.com/singhpratech/dbopt";
        driver_version = package_version;
        rules = cat.rules;
        results = map (sarif_result cwd cat) (cap_per_rule all max_per_rule).kept;
        execution_successful = is_empty read_errors;
        notifications = map (notification cwd) read_errors;
      }
