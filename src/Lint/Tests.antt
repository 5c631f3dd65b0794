-- ===== src/Lint/Tests.antt =====
-- Runs of `dbopt lint` over concrete documents, and its theorems at them.
use mathlib.Core.List.{Perm}
use dbopt.Base.{ℕ, ◌+◌, ◌≡◌, ◌≤◌, refl, none, some, List, [], ◌∷◌, false, length, map, arith}
use dbopt.Base.Bytes.{Bytes, codes, eq_bytes}
use dbopt.Findings.{Severity, info, warning, error, Finding}
use dbopt.Analyze.{AnalyzeInput}
use dbopt.Source.{plain, odd_length, is_effectively_empty, looks_like_plan_xml, looks_like_sql}
use dbopt.Suppress.{parse}
use dbopt.Order.Laws.{IsSorted}
use dbopt.Lint.{
  human, FileFinding, Options, Document, loaded, failed as unread, undecodable, contents, load, run,
  push, push_all, empty_finding, is_suppressed, compare_findings,
}
use dbopt.Lint.Report.{reported}
use dbopt.Lint.Exit.{run-report, run-exit_code, run-counts}
use dbopt.Lint.Args.{format, missing, no_paths, unsupported_version, parsed, failed, parse_args}
use dbopt.Lint.Args.Ready.{Passes, is_ready, parse_args-ready}
use dbopt.Lint.Cap.{cap_per_rule, count_rule, tally_of, cap_per_rule-first_of_each, cap_per_rule-le}

abbrev finding_of : Bytes → Severity → ℕ → Finding
finding_of rule severity line = record {
  rule = rule;
  severity = severity;
  message = [];
  location = some (record { start = 0; stop = 0; line = line; col = 1 });
  recommendation = none;
  object = none;
}

-- Finds the same two findings everywhere.
abbrev two_findings : AnalyzeInput (Unit {0}) → List Finding
two_findings input =
    finding_of (codes "hygiene.nolock") warning 2 ∷ finding_of (codes "perf.cursor") error 1 ∷ []

abbrev defaults : Options
defaults = record {
  paths = [];
  format = human;
  fail_on = error;
  server_version = none;
  ignore = codes "hygiene.*" ∷ [];
  stdin = false;
  max_per_rule = none;
}

abbrev ignoring_all : Options
ignoring_all = record defaults { ignore = codes "hygiene" ∷ codes "perf" ∷ [] }

abbrev query : Document
query = record { display = codes "b.sql"; loaded_as = loaded (plain (codes "SELECT 1")) }

abbrev blank : Document
blank = record {
  display = codes "a.sql";
  loaded_as = loaded (plain (codes "-- dbopt-ignore-file lint.empty_file"));
}

abbrev broken : Document
broken = record { display = codes "c.sql"; loaded_as = unread (undecodable odd_length) }

load_broken : load (contents (0xFF ∷ 0xFE ∷ 0x41 ∷ [])) ≡ unread (undecodable odd_length)
unfolding load
load_broken = refl

exit_2 : (run two_findings defaults (query ∷ blank ∷ broken ∷ [])).exit_code ≡ 2
unfolding run is_effectively_empty push empty_finding parse looks_like_plan_xml push_all
    looks_like_sql
exit_2 = refl

exit_0 : (run two_findings ignoring_all (query ∷ blank ∷ [])).exit_code ≡ 0
unfolding run is_effectively_empty push empty_finding parse looks_like_plan_xml push_all
    looks_like_sql
exit_0 = refl

run-exit_code_example : (run two_findings defaults (query ∷ blank ∷ [])).exit_code ≡ 1
unfolding is_effectively_empty looks_like_plan_xml looks_like_sql is_suppressed parse
run-exit_code_example = run-exit_code two_findings defaults (query ∷ blank ∷ [])

run-report_example :
    Perm
      (run two_findings defaults (query ∷ blank ∷ [])).state.all
      (reported two_findings defaults (query ∷ blank ∷ []))
    × IsSorted compare_findings (run two_findings defaults (query ∷ blank ∷ [])).state.all
run-report_example = run-report two_findings defaults (query ∷ blank ∷ [])

run-counts_example :
    (length (run two_findings defaults (query ∷ blank ∷ broken ∷ [])).state.all
        + (run two_findings defaults (query ∷ blank ∷ broken ∷ [])).state.suppressed
      ≡ 3)
    × ((run two_findings defaults (query ∷ blank ∷ broken ∷ [])).state.analyzed
          + length (run two_findings defaults (query ∷ blank ∷ broken ∷ [])).state.read_errors
        ≡ 3)
unfolding is_effectively_empty looks_like_plan_xml looks_like_sql
run-counts_example = run-counts two_findings defaults (query ∷ blank ∷ broken ∷ [])

abbrev shown_at : Bytes → ℕ → FileFinding
shown_at rule line = record { path = codes "a.sql"; finding = finding_of rule info line }

abbrev chatty : List FileFinding
chatty =
    shown_at (codes "r") 1
    ∷ shown_at (codes "q") 2
    ∷ shown_at (codes "r") 3
    ∷ shown_at (codes "r") 4
    ∷ []

cap_per_rule-first_of_each_example :
    ((cap_per_rule chatty 1).kept ≡ shown_at (codes "r") 1 ∷ shown_at (codes "q") 2 ∷ [])
    × (count_rule (codes "r") (cap_per_rule chatty 1).kept
          + tally_of (codes "r") (cap_per_rule chatty 1).hidden
        ≡ 3)
unfolding eq_bytes
cap_per_rule-first_of_each_example = cap_per_rule-first_of_each chatty 1 (codes "r")

cap_per_rule-le_example : count_rule (codes "r") (cap_per_rule chatty 1).kept ≤ 1
cap_per_rule-le_example = cap_per_rule-le chatty 1 (codes "r") (omega arith)

abbrev arguments : List Bytes
arguments = map codes ("--server-version" ∷ "16" ∷ "--max-per-rule" ∷ "+5" ∷ "a.sql" ∷ [])

arguments_parsed :
    parse_args arguments
    ≡ parsed (record defaults {
      paths = codes "a.sql" ∷ [];
      ignore = [];
      server_version = some 2022;
      max_per_rule = some 5;
    })
unfolding parse_args
arguments_parsed = refl

refused :
    (parse_args (codes "--server-version" ∷ codes "2018" ∷ codes "a.sql" ∷ [])
      ≡ failed (unsupported_version (codes "2018")))
    × (parse_args (codes "a.sql" ∷ codes "--format" ∷ []) ≡ failed (missing format))
    × (parse_args (codes "--fail-on" ∷ codes "WARN" ∷ []) ≡ failed no_paths)
unfolding parse_args
refused = (refl, refl, refl)

parse_args-ready_example : Passes is_ready (parse_args arguments)
parse_args-ready_example = parse_args-ready arguments
