-- ===== src/Rules/Transactions/Bodies.antt =====
-- crates/analyzer-core/src/rules/transactions.rs: the rules that go over the body of a transaction.
use dbopt.Base.{
  ℕ, zero, suc, ◌+◌, Bool, not, ◌&&◌, ◌||◌, Option, none, some, List, [], ◌∷◌, ◌++◌, ltb, leb,
  if◌then◌else◌, get_elem?, length,
}
use dbopt.Base.Bytes.{Bytes, codes, starts_with}
use dbopt.Base.Text.{decimal}
use dbopt.Findings.{warning, Finding}
use dbopt.Tokens.{Token}
use dbopt.Analyze.{RuleCtx}
use dbopt.Rules.{is_word_kind, holds_at, is_word, finding}
use dbopt.Rules.Transactions.{kw_at, next_code, begin_tran_at, is_commit_at, is_rollback_at}
use dbopt.Rules.Transactions.Statements.{has_xact_abort_on, is_data_stmt_start}
use dbopt.Rules.Transactions.Checks.{location_at, begins_at}
use dbopt.Rules.Transactions.Texts

-- A COMMIT or ROLLBACK, or one more BEGIN TRAN, or the end of the tokens.
unfoldable pub ends_body : List Token → ℕ → Bool
unfolding is_commit_at is_rollback_at begin_tran_at
ends_body tokens j =
    not (ltb j (length tokens))
    || is_commit_at tokens j
    || is_rollback_at tokens j
    || begins_at tokens j

-- Where the loop goes on behind a body that stopped at `j`.
abbrev pub resume : ℕ → ℕ → ℕ
resume tran_kw j = if leb j tran_kw then tran_kw + 1 else j

pub record Body : Type 0 where
  pub dml : ℕ
  pub stop : ℕ

unfoldable pub body_from : List Token → ℕ → ℕ → ℕ → Body
unfolding ends_body is_data_stmt_start
body_from tokens dml j zero = record { dml = dml; stop = j }
body_from tokens dml j (suc left) =
    let more =
      body_from tokens (if is_data_stmt_start tokens j then dml + 1 else dml) (j + 1) left in
    if ends_body tokens j then record { dml = dml; stop = j } else more

unfoldable pub missing_xact_abort_at : List Token → ℕ → ℕ → Finding
unfolding decimal
missing_xact_abort_at tokens i dml =
    finding (codes "tran.missing_xact_abort") warning
      (Texts.missing_xact_abort_head ++ decimal dml ++ Texts.missing_xact_abort_tail)
      (location_at tokens i) (some Texts.missing_xact_abort_advice)

-- The loop of `dml_batch_missing_xact_abort` from `i` on.
unfoldable pub missing_xact_abort_from : List Token → ℕ → ℕ → List Finding
unfolding begin_tran_at body_from missing_xact_abort_at
missing_xact_abort_from tokens i zero = []
missing_xact_abort_from tokens i (suc left) = elim (begin_tran_at tokens i) [
  | none ↦ missing_xact_abort_from tokens (i + 1) left
  | some tran_kw ↦
      let body = body_from tokens 0 (tran_kw + 1) (length tokens) in
      (if leb 2 body.dml then missing_xact_abort_at tokens i body.dml ∷ [] else [])
      ++ missing_xact_abort_from tokens (resume tran_kw body.stop) left
]

unfoldable pub dml_batch_missing_xact_abort : RuleCtx → List Finding
unfolding has_xact_abort_on missing_xact_abort_from
dml_batch_missing_xact_abort ctx =
    if has_xact_abort_on ctx.tokens
    then []
    else missing_xact_abort_from ctx.tokens 0 (length ctx.tokens)

unfoldable pub ddl_verb : List Token → ℕ → Option Bytes
unfolding kw_at
ddl_verb tokens j =
    if kw_at tokens j (codes "CREATE")
    then some (codes "CREATE")
    else if kw_at tokens j (codes "ALTER")
    then some (codes "ALTER")
    else if kw_at tokens j (codes "DROP")
    then some (codes "DROP")
    else if kw_at tokens j (codes "TRUNCATE")
    then some (codes "TRUNCATE")
    else none

-- A kind of object of the schema.
unfoldable pub is_schema_object : Token → Bool
unfolding is_word
is_schema_object t =
    is_word t (codes "TABLE")
    || is_word t (codes "INDEX")
    || is_word t (codes "VIEW")
    || is_word t (codes "PROCEDURE")
    || is_word t (codes "PROC")
    || is_word t (codes "FUNCTION")
    || is_word t (codes "TRIGGER")

-- The name of a temporary table or of a variable.
unfoldable pub is_temp_name : Token → Bool
unfolding starts_with
is_temp_name t =
    is_word_kind t.kind && (starts_with (codes "#") t.text || starts_with (codes "@") t.text)

-- The finding on the verb at `j`, with the kind of object at `k`.
unfoldable pub ddl_finding : List Token → ℕ → Bytes → ℕ → List Finding
unfolding is_schema_object is_temp_name next_code
ddl_finding tokens j v k =
    let names_temp = holds_at is_temp_name (get_elem? tokens (next_code tokens (k + 1))) in
    elim (get_elem? tokens k) [
      | none ↦ []
      | some obj ↦
          if is_word_kind obj.kind && is_schema_object obj && not names_temp
          then finding (codes "tran.ddl_inside_explicit_tran") warning
              (v ++ codes " " ++ obj.text ++ Texts.ddl_message_tail) (location_at tokens j)
              (some Texts.ddl_advice)
            ∷ []
          else []
    ]

pub record DdlBody : Type 0 where
  pub findings : List Finding
  pub stop : ℕ

-- The loop over a body from `j` on.
unfoldable pub ddl_body_from : List Token → ℕ → ℕ → DdlBody
unfolding ends_body ddl_verb ddl_finding next_code
ddl_body_from tokens j zero = record { findings = []; stop = j }
ddl_body_from tokens j (suc left) =
    let k = next_code tokens (j + 1) in
    let plain = ddl_body_from tokens (j + 1) left in
    let behind = ddl_body_from tokens (k + 1) left in
    if ends_body tokens j then record { findings = []; stop = j } else elim (ddl_verb tokens j) [
      | none ↦ plain
      | some v ↦ record {
        findings = ddl_finding tokens j v k ++ behind.findings;
        stop = behind.stop;
      }
    ]

unfoldable pub ddl_from : List Token → ℕ → ℕ → List Finding
unfolding begin_tran_at ddl_body_from
ddl_from tokens i zero = []
ddl_from tokens i (suc left) = elim (begin_tran_at tokens i) [
  | none ↦ ddl_from tokens (i + 1) left
  | some tran_kw ↦
      let body = ddl_body_from tokens (tran_kw + 1) (length tokens) in
      body.findings ++ ddl_from tokens (resume tran_kw body.stop) left
]

unfoldable pub ddl_inside_explicit_tran : RuleCtx → List Finding
unfolding ddl_from
ddl_inside_explicit_tran ctx = ddl_from ctx.tokens 0 (length ctx.tokens)
