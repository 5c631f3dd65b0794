-- ===== src/Lint/Exit.antt =====
-- The outcome of `dbopt lint`: its report, its counters and its exit code.
use mathlib.Core.List.{Perm}
use dbopt.Base.{
  ◌+◌, ◌≡◌, sym, subst, ap, ◌∙◌, not, List, [], ◌∷◌, ◌++◌, if◌then◌else◌, length, any, arith,
  append_assoc, append-nil, length-append,
}
use dbopt.Base.Bytes.{Bytes}
use dbopt.Base.Text.{is_empty}
use dbopt.Findings.{Finding, rank}
use dbopt.Analyze.{AnalyzeInput}
use dbopt.Suppress.{FileSuppressions, parse}
use dbopt.Order.{sort_by, compare_nat, compare_bytes}
use dbopt.Order.Laws.{
  IsSorted, flip, sort_by-IsSorted, sort_by-perm, any-sort_by, length-sort_by, then_by-flip,
  compare_nat-flip, compare_bytes-flip,
}
use dbopt.Lint.{
  FileFinding, Options, ReadError, Loaded, loaded, failed, Document, LintState, first_state,
  compare_findings, trips, finish, lint_document, lint_documents, run, line_of, col_of,
}
use dbopt.Lint.Report.{
  shown, hidden_count, raw_findings, document_shown, document_hidden, document_errors,
  document_analyzed, reported, hidden, errors, analyzed_count, Adds, lint_document-Adds,
}

pub compare_findings-flip : (a b : FileFinding) → compare_findings b a ≡ flip (compare_findings a b)
unfolding compare_findings
compare_findings-flip a b =
    then_by-flip (compare_bytes a.path b.path) _ _ _ (compare_bytes-flip a.path b.path) (
      then_by-flip (compare_nat (rank a.finding.severity) (rank b.finding.severity)) _ _ _
        (compare_nat-flip (rank a.finding.severity) (rank b.finding.severity))
        (then_by-flip (compare_nat (line_of a.finding) (line_of b.finding)) _ _ _
          (compare_nat-flip (line_of a.finding) (line_of b.finding))
          (then_by-flip (compare_nat (col_of a.finding) (col_of b.finding)) _ _ _
            (compare_nat-flip (col_of a.finding) (col_of b.finding))
            (compare_bytes-flip a.finding.rule b.finding.rule))))

length-shown :
    (ignore : List Bytes) (s : FileSuppressions) (display : Bytes) (fs : List Finding)
    → length (shown ignore s display fs) + hidden_count ignore s fs ≡ length fs
length-shown ignore s display [] = omega arith
length-shown ignore s display (f ∷ fs) = ground (arith, length-shown ignore s display fs)

module _ {Bundle : Type 0} (analyze : AnalyzeInput Bundle → List Finding) (o : Options) where
  abbrev AddsAll : LintState → List Document → LintState → Type 0
  AddsAll st ds st' =
      Adds analyze o st (reported analyze o ds) (hidden analyze o ds) (errors analyze o ds)
        (analyzed_count analyze o ds) st'

  lint_documents-Adds :
      (st : LintState) (ds : List Document) → AddsAll st ds (lint_documents analyze o st ds)
  unfolding lint_documents
  lint_documents-Adds st [] = record {
    all = sym (append-nil st.all);
    suppressed = omega arith;
    read_errors = sym (append-nil st.read_errors);
    analyzed = omega arith;
  }
  lint_documents-Adds st (d ∷ ds) =
      let one = lint_document-Adds analyze o st d in
      let more = lint_documents-Adds (lint_document analyze o st d) ds in
      record {
        all = more.all ∙ ap (λ l. l ++ reported analyze o ds) one.all ∙ append_assoc st.all _ _;
        suppressed = omega (arith, one.suppressed, more.suppressed);
        read_errors =
            more.read_errors
            ∙ ap (λ l. l ++ errors analyze o ds) one.read_errors
            ∙ append_assoc st.read_errors _ _;
        analyzed = omega (arith, one.analyzed, more.analyzed);
      }

  -- The report holds exactly the findings of the documents that were read and are not suppressed,
  -- each as often as it was found, and it is in order of path, severity, line, column and rule.
  pub run-report :
      (ds : List Document)
      → Perm (run analyze o ds).state.all (reported analyze o ds)
        × IsSorted compare_findings (run analyze o ds).state.all
  unfolding run finish
  run-report ds =
      let a = lint_documents-Adds first_state ds in
      let all = (lint_documents analyze o first_state ds).all in
      (
        subst (λ l. Perm (sort_by compare_findings all) l) a.all
            (sort_by-perm compare_findings all),
        sort_by-IsSorted compare_findings compare_findings-flip all,
      )

  -- The exit code is 2 if some document could not be read; if all could, it is 1 if some finding that
  -- is not suppressed is at or above the threshold, and 0 otherwise.
  pub run-exit_code :
      (ds : List Document)
      → (run analyze o ds).exit_code ≡ (
          if not (is_empty (errors analyze o ds))
          then 2
          else if any (trips o) (reported analyze o ds)
          then 1
          else 0)
  unfolding run finish
  run-exit_code ds =
      let a = lint_documents-Adds first_state ds in rw (any-sort_by, a.all, a.read_errors)

  -- Every finding of a document that was read is counted once, as shown or as suppressed.
  abbrev pub document_findings : Document → List Finding
  document_findings d = elim d.loaded_as [
    | failed e ↦ []
    | loaded src ↦ raw_findings analyze o d.display src
  ]

  abbrev pub all_findings : List Document → List Finding
  all_findings [] = []
  all_findings (d ∷ ds) = document_findings d ++ all_findings ds

  document_counts :
      (d : Document)
      → length (document_shown analyze o d) + document_hidden analyze o d
        ≡ length (document_findings d)
  document_counts d = counts d.loaded_as
    where
      counts :
          (l : Loaded)
          → length (elim l [
            | failed e ↦ []
            | loaded src ↦
                shown o.ignore (parse src.text) d.display (raw_findings analyze o d.display src)
          ])
              + elim l [
                | failed e ↦ 0
                | loaded src ↦
                    hidden_count o.ignore (parse src.text) (raw_findings analyze o d.display src)
              ]
            ≡ length (elim l [ failed e ↦ [] | loaded src ↦ raw_findings analyze o d.display src ])
      counts (failed e) = omega arith
      counts (loaded src) =
          length-shown o.ignore (parse src.text) d.display (raw_findings analyze o d.display src)

  all_counts :
      (ds : List Document)
      → length (reported analyze o ds) + hidden analyze o ds ≡ length (all_findings ds)
  all_counts [] = omega arith
  all_counts (d ∷ ds) = omega (
    arith,
    all_counts ds,
    document_counts d,
    length-append (document_shown analyze o d) (reported analyze o ds),
    length-append (document_findings d) (all_findings ds),
  )

  document_once :
      (d : Document) → document_analyzed analyze o d + length (document_errors analyze o d) ≡ 1
  document_once d = once d.loaded_as
    where
      once :
          (l : Loaded)
          → elim l [ failed e ↦ 0 | loaded src ↦ 1 ]
              + length {A = Bytes × ReadError}
                  (elim l [ failed e ↦ (d.display, e) ∷ [] | loaded src ↦ [] ])
            ≡ 1
      once (failed e) = omega arith
      once (loaded src) = omega arith

  documents_once :
      (ds : List Document) → analyzed_count analyze o ds + length (errors analyze o ds) ≡ length ds
  documents_once [] = omega arith
  documents_once (d ∷ ds) = omega (
    arith,
    documents_once ds,
    document_once d,
    length-append (document_errors analyze o d) (errors analyze o ds),
  )

  -- Nothing is lost: the findings shown and those suppressed are together as many as were found, and
  -- each document is counted as analyzed or as one that could not be read.
  pub run-counts :
      (ds : List Document)
      → (length (run analyze o ds).state.all + (run analyze o ds).state.suppressed
          ≡ length (all_findings ds))
        × ((run analyze o ds).state.analyzed + length (run analyze o ds).state.read_errors
            ≡ length ds)
  unfolding run finish
  run-counts ds =
      let a = lint_documents-Adds first_state ds in
      let st = lint_documents analyze o first_state ds in
      (
        omega (
          arith,
          length-sort_by compare_findings st.all,
          ap length a.all,
          a.suppressed,
          all_counts ds,
        ),
        omega (arith, ap length a.read_errors, a.analyzed, documents_once ds),
      )
