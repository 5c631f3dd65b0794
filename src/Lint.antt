-- ===== src/Lint.antt =====
-- crates/analyzer-cli/src/lint.rs: the `dbopt lint` command, from the documents that were read to
-- the exit code. The analysis of a document is a parameter, and so are the documents: walking the
-- directories, reading the files and printing stay outside.
pub mod Report
pub mod Cap
pub mod Exit
pub mod Sarif
pub mod Args
mod Tests
use dbopt.Base.{
  ℕ, ◌+◌, Bool, not, ◌||◌, Option, none, some, List, [], ◌∷◌, ◌++◌, leb, if◌then◌else◌, any,
}
use dbopt.Base.Bytes.{Bytes, codes}
use dbopt.Base.Utf8.{utf8}
use dbopt.Base.Text.{is_empty}
use dbopt.Findings.{Severity, info, warning, rank, Finding}
use dbopt.Source.{
  DecodeError, Result, ok, err, Source, Note, decode, is_effectively_empty, looks_like_plan_xml,
  looks_like_sql,
}
use dbopt.Suppress.{spec_matches, FileSuppressions, parse, covers}
use dbopt.Analyze.{AnalyzeInput, no_input}
use dbopt.Order.{Cmp, then_by, compare_nat, compare_bytes, sort_by}

pub data Format : Type 0 where
  human json sarif : Format

pub record FileFinding : Type 0 where
  pub path : Bytes
  pub finding : Finding

pub record Options : Type 0 where
  pub paths : List Bytes
  pub format : Format
  pub fail_on : Severity
  pub server_version : Option ℕ
  pub ignore : List Bytes
  pub stdin : Bool
  pub max_per_rule : Option ℕ

-- Why an input could not be read: `fs::read` failed, or the decoding did.
pub data ReadError : Type 0 where
  io : Bytes → ReadError
  undecodable : DecodeError → ReadError

pub data Loaded : Type 0 where
  loaded : Source → Loaded
  failed : ReadError → Loaded

pub data FileBytes : Type 0 where
  contents : Bytes → FileBytes
  unreadable : Bytes → FileBytes

abbrev decoded : Result Source → Loaded
decoded (ok src) = loaded src
decoded (err e) = failed (undecodable e)

-- `fs::read(file).map_err(…).and_then(decode)`
unfoldable pub load : FileBytes → Loaded
unfolding decode
load (contents bytes) = decoded (decode bytes)
load (unreadable message) = failed (io message)

pub record Document : Type 0 where
  pub display : Bytes
  pub loaded_as : Loaded

-- The variables of `run` that the loop over the documents changes.
pub record LintState : Type 0 where
  pub all : List FileFinding
  pub analyzed : ℕ
  pub read_errors : List (Bytes × ReadError)
  pub suppressed : ℕ
  pub notes : List (Bytes × Note)

abbrev pub first_state : LintState
first_state = record { all = []; analyzed = 0; read_errors = []; suppressed = 0; notes = [] }

-- synthetic
unfoldable pub synthetic : Bytes → Severity → Bytes → Bytes → Finding
synthetic rule severity message fix = record {
  rule = rule;
  severity = severity;
  message = message;
  location = some (record { start = 0; stop = 0; line = 1; col = 1 });
  recommendation = some fix;
  object = none;
}

abbrev line_of_finding : Finding → Option ℕ
line_of_finding f = elim f.location [ none ↦ none | some l ↦ some l.line ]

-- Is the finding ignored by a flag, or suppressed in the source?
unfoldable pub is_suppressed : List Bytes → FileSuppressions → Finding → Bool
unfolding spec_matches covers
is_suppressed ignore s f =
    any (λ spec. spec_matches spec f.rule) ignore || covers s f.rule (line_of_finding f)

-- The closure `push`.
unfoldable pub push : List Bytes → FileSuppressions → Bytes → LintState → Finding → LintState
unfolding is_suppressed
push ignore s display st f =
    if is_suppressed ignore s f
    then record st { suppressed = st.suppressed + 1 }
    else record st { all = st.all ++ record { path = display; finding = f } ∷ [] }

unfoldable pub push_all :
    List Bytes → FileSuppressions → Bytes → LintState → List Finding → LintState
unfolding push
push_all ignore s display st [] = st
push_all ignore s display st (f ∷ fs) = push_all ignore s display (push ignore s display st f) fs

unfoldable pub encoding_finding : Bytes → Finding
unfolding synthetic
encoding_finding display =
    synthetic (codes "lint.encoding") info
      (display ++ utf8 ": not valid UTF-8 — decoded as Windows-1252 so it could still be analyzed.")
      (codes
        "Save the file as UTF-8 (SSMS: File > Save As > Save with Encoding > UTF-8). Accented characters and smart quotes were read with the Windows-1252 table; the findings below are still real, but string literals may differ from what was saved.")

unfoldable pub empty_finding : Finding
unfolding synthetic
empty_finding =
    synthetic (codes "lint.empty_file") info
      (utf8 "File contains no statements — only whitespace or comments.")
      (codes
        "If this file is a placeholder, that is fine. If it was meant to hold a migration, it is empty and nothing will run.")

unfoldable pub unrecognized_finding : Finding
unfolding synthetic
unrecognized_finding =
    synthetic (codes "lint.unrecognized_input") warning
      (utf8
        "No recognizable T-SQL statement found — this file was analyzed but nothing in it parsed as SQL.")
      (codes
        "Check the file is not truncated, binary, or in an encoding dbopt could not detect. It is reported here rather than counted as clean.")

abbrev pub default_server_version : ℕ
default_server_version = 2025

abbrev target_version : Options → Option ℕ
target_version o = elim o.server_version [ none ↦ some default_server_version | some v ↦ some v ]

abbrev add_note : Bytes → Option Note → LintState → LintState
add_note display none st = st
add_note display (some n) st = record st { notes = st.notes ++ (display, n) ∷ [] }

-- Order of the report: path, severity, line, column, rule.
abbrev pub line_of : Finding → ℕ
line_of f = elim f.location [ none ↦ 0 | some l ↦ l.line ]

abbrev pub col_of : Finding → ℕ
col_of f = elim f.location [ none ↦ 0 | some l ↦ l.col ]

unfoldable pub compare_findings : FileFinding → FileFinding → Cmp
unfolding compare_bytes compare_nat then_by
compare_findings a b = then_by (compare_bytes a.path b.path) (
    then_by (compare_nat (rank a.finding.severity) (rank b.finding.severity)) (
      then_by (compare_nat (line_of a.finding) (line_of b.finding)) (
        then_by (compare_nat (col_of a.finding) (col_of b.finding))
          (compare_bytes a.finding.rule b.finding.rule))))

-- Does a finding reach the threshold?
abbrev pub trips : Options → FileFinding → Bool
trips o f = leb (rank f.finding.severity) (rank o.fail_on)

pub record Outcome : Type 0 where
  pub state : LintState
  pub exit_code : ℕ

-- The part of `run` behind the loop: the sort and the exit code.
unfoldable pub finish : Options → LintState → Outcome
unfolding sort_by compare_findings
finish o st =
    let sorted = sort_by compare_findings st.all in
    record {
      state = record st { all = sorted };
      exit_code =
          if not (is_empty st.read_errors) then 2 else if any (trips o) sorted then 1 else 0;
    }

module _ {Bundle : Type 0} (analyze : AnalyzeInput Bundle → List Finding) where
  -- The rest of the body of the loop for a document that was read, behind the note.
  unfoldable pub lint_source : Options → Bytes → Source → LintState → LintState
  lint_source o display src st =
      let s = parse src.text in
      let st1 = if src.lossy then push o.ignore s display st (encoding_finding display) else st in
      if is_effectively_empty src.text
      then push o.ignore s display st1 empty_finding
      else if looks_like_plan_xml src.text
      then push_all o.ignore s display st1 (
          analyze (record no_input { plan_xml = some src.text; server_version = target_version o }))
      else let st2 =
          if not (looks_like_sql src.text)
          then push o.ignore s display st1 unrecognized_finding
          else st1 in
        push_all o.ignore s display st2
          (analyze (record no_input { sql = some src.text; server_version = target_version o }))

  -- The body of the loop over the documents.
  unfoldable pub lint_document : Options → LintState → Document → LintState
  unfolding lint_source
  lint_document o st d = elim d.loaded_as [
    | failed e ↦ record st { read_errors = st.read_errors ++ (d.display, e) ∷ [] }
    | loaded src ↦
        lint_source o d.display src
          (add_note d.display src.encoding_note (record st { analyzed = st.analyzed + 1 }))
  ]

  unfoldable pub lint_documents : Options → LintState → List Document → LintState
  unfolding lint_document
  lint_documents o st [] = st
  lint_documents o st (d ∷ ds) = lint_documents o (lint_document o st d) ds

  -- `run` on the documents.
  unfoldable pub run : Options → List Document → Outcome
  unfolding lint_documents finish
  run o ds = finish o (lint_documents o first_state ds)
