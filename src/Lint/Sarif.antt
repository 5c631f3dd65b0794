-- ===== src/Lint/Sarif.antt =====
-- crates/analyzer-cli/src/lint.rs: `print_json` and `build_sarif`, as records in place of the JSON
-- values; with the look-up of crates/analyzer-cli/src/rule_docs.rs, whose table is a parameter. The
-- version of the package and the current directory are parameters too.
mod Tests
pub mod Log
pub mod Levels
pub mod Descriptors
pub mod Loop
pub mod Results
use Prim.Native.String.{String}
use dbopt.Base.{
  ℕ, suc, ◌+◌, Bool, true, false, not, Option, none, some, List, [], ◌∷◌, ◌++◌, map, ltb, ◌==◌,
  if◌then◌else◌, length, any, zero,
}
use dbopt.Base.Bytes.{Bytes, codes, eq_bytes, starts_with, strip_prefix}
use dbopt.Base.Text.{is_empty, trim, before}
use dbopt.Findings.{Severity, info, warning, error, critical, Finding}
use dbopt.Lint.{FileFinding}
use dbopt.Lint.Cap.{Tally, bump, cap_per_rule}

abbrev pub severity_label : Severity → Bytes
severity_label info = codes "info"
severity_label warning = codes "warning"
severity_label error = codes "error"
severity_label critical = codes "critical"

-- An entry of `findings` in the JSON output.
pub record JsonFinding : Type 0 where
  pub file : Bytes
  pub rule : Bytes
  pub severity : Bytes
  pub message : Bytes
  pub line : Option ℕ
  pub col : Option ℕ
  pub start_offset : Option ℕ
  pub end_offset : Option ℕ
  pub recommendation : Option Bytes

abbrev pub json_finding : FileFinding → JsonFinding
json_finding ff = record {
  file = ff.path;
  rule = ff.finding.rule;
  severity = severity_label ff.finding.severity;
  message = ff.finding.message;
  line = elim ff.finding.location [ none ↦ none | some l ↦ some l.line ];
  col = elim ff.finding.location [ none ↦ none | some l ↦ some l.col ];
  start_offset = elim ff.finding.location [ none ↦ none | some l ↦ some l.start ];
  end_offset = elim ff.finding.location [ none ↦ none | some l ↦ some l.stop ];
  recommendation = ff.finding.recommendation;
}

pub record JsonReport : Type 0 where
  pub files_analyzed : ℕ
  pub finding_count : ℕ
  pub findings_shown : ℕ
  pub max_per_rule : ℕ
  pub suppressed_count : ℕ
  pub counts_by_severity : Tally
  pub counts_by_rule : Tally
  pub findings : List JsonFinding
  pub read_errors : List (Bytes × Bytes)

-- The loop that counts the findings by a key.
unfoldable pub count_by : (FileFinding → Bytes) → Tally → List FileFinding → Tally
unfolding bump
count_by key counts [] = counts
count_by key counts (ff ∷ all) = count_by key (bump (key ff) counts) all

unfoldable pub print_json : List FileFinding → ℕ → List (Bytes × Bytes) → ℕ → ℕ → JsonReport
unfolding count_by cap_per_rule
print_json all analyzed read_errors suppressed max_per_rule =
    let findings = map json_finding (cap_per_rule all max_per_rule).kept in
    record {
      files_analyzed = analyzed;
      finding_count = length all;
      findings_shown = length findings;
      max_per_rule = max_per_rule;
      suppressed_count = suppressed;
      counts_by_severity = count_by (λ ff. severity_label ff.finding.severity) [] all;
      counts_by_rule = count_by (λ ff. ff.finding.rule) [] all;
      findings = findings;
      read_errors = read_errors;
    }

abbrev pub sarif_level : Severity → Bytes
sarif_level info = codes "note"
sarif_level warning = codes "warning"
sarif_level error = codes "error"
sarif_level critical = codes "error"

-- Lower is more severe.
unfoldable pub level_rank : Bytes → ℕ
unfolding eq_bytes
level_rank level =
    if eq_bytes level (codes "error")
    then 0
    else if eq_bytes level (codes "warning")
    then 1
    else if eq_bytes level (codes "note")
    then 2
    else 3

unfoldable pub sarif_family_tag : Bytes → Bytes
unfolding before eq_bytes
sarif_family_tag rule_id =
    let family = before (codes ".") rule_id in
    if eq_bytes family (codes "security")
    then codes "security"
    else if any (eq_bytes family)
        (codes "deprecated" ∷ codes "tran" ∷ codes "ddl" ∷ codes "datatype" ∷ [])
    then codes "correctness"
    else codes "performance"

pub record RuleDoc : Type 0 where
  pub short : Bytes
  pub full : Bytes
  pub help_uri : Option Bytes

abbrev pub fallback : RuleDoc
fallback = record {
  short = codes "dbopt static analysis rule";
  full =
      codes
        "A finding from the dbopt offline analyzer. The result message describes the specific statement or object it was raised on; see the rule id for the family (hygiene, sarg, index, joins, plan, ...).";
  help_uri = none;
}

-- `rule_docs::lookup` in the table of the documented rules
unfoldable pub lookup : List (Bytes × RuleDoc) → Bytes → RuleDoc
unfolding eq_bytes
lookup [] rule_id = fallback
lookup ((id, doc) ∷ docs) rule_id = if eq_bytes id rule_id then doc else lookup docs rule_id

-- `rule_docs::help_uri`
unfoldable pub help_uri_of : RuleDoc → Option Bytes
unfolding starts_with
help_uri_of doc = elim doc.help_uri [
  | none ↦ none
  | some p ↦
      some
        (if starts_with (codes "http") p then p else codes "https://learn.microsoft.com/sql/" ++ p)
]

-- A rule of the catalog; `level` is that of its default configuration.
pub record Descriptor : Type 0 where
  pub id : Bytes
  pub name : Bytes
  pub short_description : Bytes
  pub full_description : Bytes
  pub help : Bytes
  pub level : Bytes
  pub tags : List Bytes
  pub help_uri : Option Bytes

pub record Catalog : Type 0 where
  pub rule_index : List (Bytes × ℕ)
  pub rules : List Descriptor

abbrev pub no_rules : Catalog
no_rules = record { rule_index = []; rules = [] }

-- `rule_index.get(&id)`
unfoldable pub index_of : Bytes → List (Bytes × ℕ) → Option ℕ
unfolding eq_bytes
index_of id [] = none
index_of id ((k, n) ∷ m) = let rest = index_of id m in if eq_bytes k id then some n else rest

-- `str::replace` of one ASCII character by another
abbrev pub replace_byte : ℕ → ℕ → Bytes → Bytes
replace_byte old new = map (λ c. if c == old then new else c)

abbrev pub descriptor : List (Bytes × RuleDoc) → Bytes → Bytes → Descriptor
descriptor docs id level = record {
  id = id;
  name = replace_byte b'.' b'_' id;
  short_description = (lookup docs id).short;
  full_description = (lookup docs id).full;
  help = (lookup docs id).full;
  level = level;
  tags = codes "sql" ∷ sarif_family_tag id ∷ [];
  help_uri = help_uri_of (lookup docs id);
}

-- The more severe of the level so far and that of one more finding.
abbrev pub raised : Bytes → Bytes → Bytes
raised level level_now = if ltb (level_rank level_now) (level_rank level) then level_now else level

-- The level of `rules[idx]`; the index is one of the list.
unfoldable pub raise_level : Bytes → ℕ → List Descriptor → List Descriptor
unfolding level_rank
raise_level level_now idx [] = []
raise_level level_now zero (d ∷ ds) = record d { level = raised d.level level_now } ∷ ds
raise_level level_now (suc idx) (d ∷ ds) = d ∷ raise_level level_now idx ds

-- The body of the loop over the findings.
unfoldable pub catalog_step : List (Bytes × RuleDoc) → Catalog → FileFinding → Catalog
unfolding index_of raise_level lookup help_uri_of sarif_family_tag
catalog_step docs cat ff =
    let id = ff.finding.rule in
    let level_now = sarif_level ff.finding.severity in
    elim (index_of id cat.rule_index) [
      | some idx ↦ record cat { rules = raise_level level_now idx cat.rules }
      | none ↦ record {
        rule_index = (id, length cat.rules) ∷ cat.rule_index;
        rules = cat.rules ++ descriptor docs id level_now ∷ [];
      }
    ]

unfoldable pub catalog_from : List (Bytes × RuleDoc) → Catalog → List FileFinding → Catalog
unfolding catalog_step
catalog_from docs cat [] = cat
catalog_from docs cat (ff ∷ all) = catalog_from docs (catalog_step docs cat ff) all
