-- ===== src/Charts.antt =====
-- crates/analyzer-core/src/report.rs: the timeline of the severities of the findings over the lines
-- of a text.
pub mod Timeline
use dbopt.Base.{
  ℕ, zero, suc, ◌+◌, ◌-◌, Bool, Option, none, some, List, [], ◌∷◌, ◌||◌, ltb, ◌==◌, if◌then◌else◌,
  u32, length,
}
use dbopt.Base.Bytes.{Bytes}
use dbopt.Base.Text.{lines}
use dbopt.Findings.{Severity, info, warning, error, critical, Finding}

pub record SeverityBucket : Type 0 where
  pub line : ℕ
  pub critical_count : ℕ
  pub error_count : ℕ
  pub warning_count : ℕ
  pub info_count : ℕ

abbrev pub empty_bucket : ℕ → SeverityBucket
empty_bucket line = record {
  line = line;
  critical_count = 0;
  error_count = 0;
  warning_count = 0;
  info_count = 0;
}

-- One more finding of a severity.
unfoldable pub count_severity : Severity → SeverityBucket → SeverityBucket
count_severity critical b = record b { critical_count = u32 (b.critical_count + 1) }
count_severity error b = record b { error_count = u32 (b.error_count + 1) }
count_severity warning b = record b { warning_count = u32 (b.warning_count + 1) }
count_severity info b = record b { info_count = u32 (b.info_count + 1) }

-- `&mut buckets[i]`
unfoldable pub count_at : Severity → ℕ → List SeverityBucket → List SeverityBucket
unfolding count_severity
count_at s i [] = []
count_at s zero (b ∷ bs) = count_severity s b ∷ bs
count_at s (suc i) (b ∷ bs) = b ∷ count_at s i bs

-- The line of a finding, 1 if it has none.
abbrev pub line_or_first : Finding → ℕ
line_or_first f = elim f.location [ none ↦ 1 | some l ↦ l.line ]

-- The body of the loop over the findings.
unfoldable pub count_finding : List SeverityBucket → Finding → List SeverityBucket
unfolding count_at
count_finding buckets f =
    let line = line_or_first f in
    if line == 0 || ltb (length buckets) line
    then buckets
    else count_at f.severity (line - 1) buckets

unfoldable pub count_findings : List SeverityBucket → List Finding → List SeverityBucket
unfolding count_finding
count_findings buckets [] = buckets
count_findings buckets (f ∷ fs) = count_findings (count_finding buckets f) fs

-- `(first..=…).map(…)` of a number of lines
abbrev pub empty_buckets : ℕ → ℕ → List SeverityBucket
empty_buckets first zero = []
empty_buckets first (suc n) = empty_bucket first ∷ empty_buckets (first + 1) n

abbrev pub total_lines : Bytes → ℕ
total_lines src = let n = length (lines src) in u32 (if n == 0 then 1 else n)

unfoldable pub severity_timeline : Bytes → List Finding → List SeverityBucket
unfolding count_findings lines
severity_timeline src findings = count_findings (empty_buckets 1 (total_lines src)) findings
