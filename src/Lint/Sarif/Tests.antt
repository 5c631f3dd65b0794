-- ===== src/Lint/Sarif/Tests.antt =====
-- A SARIF log and a JSON report of concrete findings, and the theorems on them.
use dbopt.Base.{◌≡◌, refl, true, none, some, List, [], ◌∷◌, map, all}
use dbopt.Base.Bytes.{Bytes, codes}
use dbopt.Findings.{Severity, info, warning, critical}
use dbopt.Lint.{FileFinding}
use dbopt.Lint.Cap.{tally_of}
use dbopt.Lint.Sarif.{RuleDoc, print_json, level_rank}
use dbopt.Lint.Sarif.Levels.{worst}
use dbopt.Lint.Sarif.Descriptors.{rule_ids, is_distinct, described}
use dbopt.Lint.Sarif.Log.{uri_for, build_sarif}
use dbopt.Lint.Sarif.Results.{is_resolved, build_sarif-rules, build_sarif-results}

abbrev found : Bytes → Severity → FileFinding
found rule severity = record {
  path = codes "a.sql";
  finding = record {
    rule = rule;
    severity = severity;
    message = codes "m";
    location = none;
    recommendation = some (codes " ");
    object = none;
  };
}

abbrev three : List FileFinding
three =
    found (codes "hygiene.nolock") info
    ∷ found (codes "ddl.x") warning
    ∷ found (codes "hygiene.nolock") critical
    ∷ []

abbrev docs : List (Bytes × RuleDoc)
docs =
    (codes "ddl.x", record { short = codes "s"; full = codes "f"; help_uri = some (codes "t") })
    ∷ []

levels :
    map (λ d. d.level) (build_sarif docs (codes "1.0") none three [] 0).rules
    ≡ codes "error" ∷ codes "warning" ∷ []
unfolding build_sarif level_rank
levels = refl

places :
    map (λ r. r.rule_index) (build_sarif docs (codes "1.0") none three [] 0).results
    ≡ 0 ∷ 1 ∷ 0 ∷ []
unfolding build_sarif
places = refl

totals : tally_of (codes "hygiene.nolock") (print_json three 1 [] 0 1).counts_by_rule ≡ 2
unfolding print_json tally_of
totals = refl

-- A path relative to the current directory, one outside of it, and one with a drive.
uris :
    map (uri_for (some (codes "/w"))) (codes "/w/a.sql" ∷ codes "/v/a.sql" ∷ codes "C:\\a.sql" ∷ [])
    ≡ codes "a.sql" ∷ codes "file:///v/a.sql" ∷ codes "C:/a.sql" ∷ []
unfolding uri_for
uris = refl

build_sarif-rules_example :
    ((build_sarif docs (codes "1.0") none three [] 1).rules
      ≡ described docs (λ r. worst r three) (rule_ids three))
    × (is_distinct (rule_ids three) ≡ true)
build_sarif-rules_example = build_sarif-rules docs (codes "1.0") none three [] 1

build_sarif-results_example :
    all
      (is_resolved (build_sarif docs (codes "1.0") none three [] 1).rules)
      (build_sarif docs (codes "1.0") none three [] 1).results
    ≡ true
build_sarif-results_example = build_sarif-results docs (codes "1.0") none three [] 1
