-- ===== src/Analyze/Tests.antt =====
-- An analysis of a concrete script, and the theorems on reports and timelines at it.
use mathlib.Core.List.{Perm}
use dbopt.Base.{true, ℕ, ◌≡◌, refl, none, some, List, [], ◌∷◌, map}
use dbopt.Base.Bytes.{Bytes, codes}
use dbopt.Findings.{Severity, info, error, critical, Finding}
use dbopt.Charts.{total_lines, severity_timeline}
use dbopt.Charts.Timeline.{bucket_of, numbers, severity_timeline-bucket_of}
use dbopt.Analyze.{
  sql_server, postgres, AnalyzeInput, no_input, Rule, PlanResult, unparsed, parse_error, run_all,
  analyze,
}
use dbopt.Analyze.Report.{all_in_order, analyze-findings}

abbrev found : Bytes → Severity → ℕ → Finding
found rule severity line = record {
  rule = rule;
  severity = severity;
  message = [];
  location = some (record { start = line; stop = line; line = line; col = 1 });
  recommendation = none;
  object = none;
}

abbrev always : Rule
always = record {
  run = λ ctx. found (codes "a") info 1 ∷ found (codes "b") critical 2 ∷ [];
  engines = sql_server ∷ [];
}

abbrev no_plan : Bytes → PlanResult
no_plan xml = unparsed (codes "empty")

abbrev no_advice : Unit {0} → List Finding
no_advice bundle = []

abbrev two_lines : Bytes
two_lines = codes "SELECT 1\nSELECT 2\n"

abbrev input : AnalyzeInput (Unit {0})
input = record no_input { sql = some two_lines; plan_xml = some [] }

other_engine : run_all (always ∷ []) two_lines [] none postgres ≡ []
unfolding run_all
other_engine = refl

-- The error of the plan stands between the findings of the rules.
severities :
    map (λ f. f.severity) (analyze (always ∷ []) no_plan no_advice input).findings
    ≡ critical ∷ error ∷ info ∷ []
unfolding analyze
severities = refl

analyze-findings_example :
    Perm
      (analyze (always ∷ []) no_plan no_advice input).findings
      (found (codes "a") info 1 ∷ found (codes "b") critical 2 ∷ parse_error (codes "empty") ∷ [])
    × (all_in_order (analyze (always ∷ []) no_plan no_advice input).findings ≡ true)
analyze-findings_example = analyze-findings (always ∷ []) no_plan no_advice input

severity_timeline-bucket_of_example :
    severity_timeline two_lines (found (codes "a") info 1 ∷ found (codes "b") critical 2 ∷ [])
    ≡ map
        (bucket_of (found (codes "a") info 1 ∷ found (codes "b") critical 2 ∷ []))
        (numbers 1 (total_lines two_lines))
severity_timeline-bucket_of_example =
    severity_timeline-bucket_of two_lines
      (found (codes "a") info 1 ∷ found (codes "b") critical 2 ∷ [])
