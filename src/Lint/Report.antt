-- ===== src/Lint/Report.antt =====
-- What `dbopt lint` reports, against the plain lists of the findings of its documents.

use dbopt.Base.{
  ℕ, ◌+◌, ◌≡◌, refl, sym, ap, ◌∙◌, not, Option, none, some, List, [], ◌∷◌, ◌++◌, if◌then◌else◌,
  arith, append_assoc, append-nil, Bool-cases, ◌⊎◌, inl, inr,
}
use dbopt.Base.Bytes.{Bytes}
use dbopt.Findings.{Finding}
use dbopt.Analyze.{AnalyzeInput, no_input}
use dbopt.Source.{Note, Source, is_effectively_empty, looks_like_plan_xml, looks_like_sql}
use dbopt.Suppress.{FileSuppressions, parse}
use dbopt.Lint.{
  FileFinding, Options, ReadError, Loaded, loaded, failed, Document, LintState, is_suppressed, push,
  push_all, encoding_finding, empty_finding, unrecognized_finding, target_version, add_note,
  lint_source, lint_document,
}

-- The findings of a document that are shown, in order.
abbrev pub shown : List Bytes → FileSuppressions → Bytes → List Finding → List FileFinding
shown ignore s display [] = []
shown ignore s display (f ∷ fs) =
    if is_suppressed ignore s f
    then shown ignore s display fs
    else record { path = display; finding = f } ∷ shown ignore s display fs

abbrev pub hidden_count : List Bytes → FileSuppressions → List Finding → ℕ
hidden_count ignore s [] = 0
hidden_count ignore s (f ∷ fs) =
    (if is_suppressed ignore s f then 1 else 0) + hidden_count ignore s fs

-- `push_all` as one update.
abbrev pushed : List Bytes → FileSuppressions → Bytes → LintState → List Finding → LintState
pushed ignore s display st fs = record st {
  all = st.all ++ shown ignore s display fs;
  suppressed = st.suppressed + hidden_count ignore s fs;
}

pushed-push :
    (ignore : List Bytes) (s : FileSuppressions) (display : Bytes) (st : LintState) (f : Finding)
    → (fs : List Finding)
    → pushed ignore s display (push ignore s display st f) fs ≡ pushed ignore s display st (f ∷ fs)
unfolding push
pushed-push ignore s display st f fs = ground (
  arith,
  append_assoc st.all (record { path = display; finding = f } ∷ []) (shown ignore s display fs),
)

push_all-pushed :
    (ignore : List Bytes) (s : FileSuppressions) (display : Bytes) (st : LintState)
    (fs : List Finding)
    → push_all ignore s display st fs ≡ pushed ignore s display st fs
unfolding push_all
push_all-pushed ignore s display st [] = ground (arith, append-nil st.all)
push_all-pushed ignore s display st (f ∷ fs) =
    push_all-pushed ignore s display (push ignore s display st f) fs
    ∙ pushed-push ignore s display st f fs

push_all-append :
    (ignore : List Bytes) (s : FileSuppressions) (display : Bytes) (st : LintState)
    (fs gs : List Finding)
    → push_all ignore s display st (fs ++ gs)
      ≡ push_all ignore s display (push_all ignore s display st fs) gs
unfolding push_all
push_all-append ignore s display st [] gs = refl
push_all-append ignore s display st (f ∷ fs) gs =
    push_all-append ignore s display (push ignore s display st f) fs gs

module _ {Bundle : Type 0} (analyze : AnalyzeInput Bundle → List Finding) (o : Options) where
  -- The findings of the analysis of a document that is not empty, behind that it was recognized.
  abbrev pub analyzed_findings : Source → List Finding
  analyzed_findings src =
      if looks_like_plan_xml src.text
      then analyze (record no_input { plan_xml = some src.text; server_version = target_version o })
      else (if not (looks_like_sql src.text) then unrecognized_finding ∷ [] else [])
        ++ analyze (record no_input { sql = some src.text; server_version = target_version o })

  -- All findings of a document, suppressed or not.
  abbrev pub raw_findings : Bytes → Source → List Finding
  raw_findings display src =
      (if src.lossy then encoding_finding display ∷ [] else [])
      ++ (if is_effectively_empty src.text then empty_finding ∷ [] else analyzed_findings src)

  push_all_body :
      (display : Bytes) (src : Source) (st : LintState)
      → push_all o.ignore
          (parse src.text)
          display
          st
          (if is_effectively_empty src.text then empty_finding ∷ [] else analyzed_findings src)
        ≡ (if is_effectively_empty src.text
            then push o.ignore (parse src.text) display st empty_finding
            else if looks_like_plan_xml src.text
            then push_all o.ignore (parse src.text) display st (
                analyze
                  (record no_input { plan_xml = some src.text; server_version = target_version o }))
            else push_all o.ignore
                (parse src.text)
                display
                (if not (looks_like_sql src.text)
                  then push o.ignore (parse src.text) display st unrecognized_finding
                  else st)
                (analyze
                  (record no_input { sql = some src.text; server_version = target_version o })))
  unfolding push_all
  push_all_body display src st = elim (Bool-cases (is_effectively_empty src.text)) [
    | inl e ↦ rw e
    | inr e ↦ elim (Bool-cases (looks_like_plan_xml src.text)) [
      | inl f ↦ rw (e, f)
      | inr f ↦ elim (Bool-cases (looks_like_sql src.text)) [
        | inl g ↦ rw (e, f, g)
        | inr g ↦ rw (e, f, g)
      ]
    ]
  ]

  push_all_encoding :
      (display : Bytes) (src : Source) (st : LintState)
      → push_all o.ignore
          (parse src.text)
          display
          st
          (if src.lossy then encoding_finding display ∷ [] else [])
        ≡ (if src.lossy
            then push o.ignore (parse src.text) display st (encoding_finding display)
            else st)
  unfolding push_all
  push_all_encoding display src st = elim (Bool-cases src.lossy) [ inl e ↦ rw e | inr e ↦ rw e ]

  lint_source-push_all :
      (display : Bytes) (src : Source) (st : LintState)
      → lint_source analyze o display src st
        ≡ push_all o.ignore (parse src.text) display st (raw_findings display src)
  unfolding lint_source
  lint_source-push_all display src st = sym (
      push_all-append o.ignore (parse src.text) display st
        (if src.lossy then encoding_finding display ∷ [] else [])
        (if is_effectively_empty src.text then empty_finding ∷ [] else analyzed_findings src)
      ∙ ap
          (λ s.
            push_all o.ignore (parse src.text) display s
              (if is_effectively_empty src.text then empty_finding ∷ [] else analyzed_findings src))
          (push_all_encoding display src st)
      ∙ push_all_body display src (
          if src.lossy
          then push o.ignore (parse src.text) display st (encoding_finding display)
          else st))

  abbrev pub document_shown : Document → List FileFinding
  document_shown d = elim d.loaded_as [
    | failed e ↦ []
    | loaded src ↦ shown o.ignore (parse src.text) d.display (raw_findings d.display src)
  ]

  abbrev pub document_hidden : Document → ℕ
  document_hidden d = elim d.loaded_as [
    | failed e ↦ 0
    | loaded src ↦ hidden_count o.ignore (parse src.text) (raw_findings d.display src)
  ]

  abbrev pub document_errors : Document → List (Bytes × ReadError)
  document_errors d = elim d.loaded_as [ failed e ↦ (d.display, e) ∷ [] | loaded src ↦ [] ]

  abbrev pub document_analyzed : Document → ℕ
  document_analyzed d = elim d.loaded_as [ failed e ↦ 0 | loaded src ↦ 1 ]

  -- What all documents report, in order.
  abbrev pub reported : List Document → List FileFinding
  reported [] = []
  reported (d ∷ ds) = document_shown d ++ reported ds

  abbrev pub hidden : List Document → ℕ
  hidden [] = 0
  hidden (d ∷ ds) = document_hidden d + hidden ds

  abbrev pub errors : List Document → List (Bytes × ReadError)
  errors [] = []
  errors (d ∷ ds) = document_errors d ++ errors ds

  abbrev pub analyzed_count : List Document → ℕ
  analyzed_count [] = 0
  analyzed_count (d ∷ ds) = document_analyzed d + analyzed_count ds

  -- What the loop adds to its variables.
  pub record Adds (st : LintState) (fs : List FileFinding) (n : ℕ) (es : List (Bytes × ReadError))
      (k : ℕ) (st' : LintState) : Type 0 where
    pub all : st'.all ≡ st.all ++ fs
    pub suppressed : st'.suppressed ≡ st.suppressed + n
    pub read_errors : st'.read_errors ≡ st.read_errors ++ es
    pub analyzed : st'.analyzed ≡ st.analyzed + k

  Loaded-cases :
      (l : Loaded) → ((e : ReadError) × (l ≡ failed e)) ⊎ ((src : Source) × (l ≡ loaded src))
  Loaded-cases (failed e) = inl (e, refl)
  Loaded-cases (loaded src) = inr (src, refl)

  noted-all :
      (display : Bytes) (n : Option Note) (st : LintState)
      → ((add_note display n st).all ≡ st.all)
        × ((add_note display n st).suppressed ≡ st.suppressed)
        × ((add_note display n st).read_errors ≡ st.read_errors)
        × ((add_note display n st).analyzed ≡ st.analyzed)
  noted-all display none st = (refl, refl, refl, refl)
  noted-all display (some n) st = (refl, refl, refl, refl)

  pub lint_document-Adds :
      (st : LintState) (d : Document)
      → Adds st
          (document_shown d)
          (document_hidden d)
          (document_errors d)
          (document_analyzed d)
          (lint_document analyze o st d)
  unfolding lint_document
  lint_document-Adds st d = elim (Loaded-cases d.loaded_as) [
    | inl (e, h) ↦ rw h (record {
      all = sym (append-nil st.all);
      suppressed = omega arith;
      read_errors = refl;
      analyzed = omega arith;
    })
    | inr (src, h) ↦
        let st1 = add_note d.display src.encoding_note (record st { analyzed = st.analyzed + 1 }) in
        let n = noted-all d.display src.encoding_note (record st { analyzed = st.analyzed + 1 }) in
        let e =
          lint_source-push_all d.display src st1
          ∙ push_all-pushed o.ignore (parse src.text) d.display st1 (raw_findings d.display src) in
        rw h (
          rw e (record {
            all =
                ap
                  (λ l. l ++ shown o.ignore (parse src.text) d.display (raw_findings d.display src))
                  n.0;
            suppressed =
                ap (λ k. k + hidden_count o.ignore (parse src.text) (raw_findings d.display src))
                  n.1;
            read_errors = n.2 ∙ sym (append-nil st.read_errors);
            analyzed = n.3;
          }))
  ]
