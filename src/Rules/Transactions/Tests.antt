-- ===== src/Rules/Transactions/Tests.antt =====
-- The rules on transactions at concrete scripts, and the theorems on them there.
use dbopt.Base.{◌≡◌, refl, true, none, List, [], ◌∷◌, map}
use dbopt.Base.Bytes.{Bytes, codes}
use dbopt.Base.Text.{decimal}
use dbopt.Findings.{Finding}
use dbopt.Tokens.{tokenize}
use dbopt.Analyze.{RuleCtx, sql_server}
use dbopt.Rules.Transactions.Statements.{has_xact_abort_on}
use dbopt.Rules.Transactions.Checks.{
  begin_tran_without_try_catch, begin_tran_without_commit, commit_rollback_without_begin,
}
use dbopt.Rules.Transactions.Bodies.{dml_batch_missing_xact_abort, ddl_inside_explicit_tran}
use dbopt.Rules.Transactions.Reports.{not_both, transaction_rules-exclusive}

abbrev script : Bytes → RuleCtx
script sql = record { src = sql; tokens = tokenize sql; server_version = none; engine = sql_server }

abbrev rules_of : List Finding → List Bytes
rules_of = map (λ f. f.rule)

abbrev committed : RuleCtx
committed = script (codes "BEGIN /* x */ TRAN; DELETE t; UPDATE t SET a = 1; COMMIT")

abbrev left_open : RuleCtx
left_open = script (codes "BEGIN TRANSACTION\nDELETE t")

committed_rules :
    (rules_of (begin_tran_without_try_catch committed) ≡ codes "tran.begin_without_try_catch" ∷ [])
    × (rules_of (begin_tran_without_commit committed) ≡ [])
    × (rules_of (commit_rollback_without_begin committed) ≡ [])
    × (rules_of (dml_batch_missing_xact_abort committed) ≡ codes "tran.missing_xact_abort" ∷ [])
unfolding tokenize begin_tran_without_try_catch begin_tran_without_commit
    commit_rollback_without_begin dml_batch_missing_xact_abort
committed_rules = (refl, refl, refl, refl)

close_only :
    (rules_of (commit_rollback_without_begin (script (codes "ROLLBACK")))
      ≡ codes "tran.close_without_begin" ∷ [])
    × (commit_rollback_without_begin (script (codes "IF @@TRANCOUNT > 0 ROLLBACK")) ≡ [])
unfolding tokenize commit_rollback_without_begin
close_only = (refl, refl)

ddl_in_body :
    rules_of (ddl_inside_explicit_tran (script (codes "BEGIN TRAN DROP TABLE t; DROP TABLE #t")))
    ≡ codes "tran.ddl_inside_explicit_tran" ∷ []
unfolding tokenize ddl_inside_explicit_tran
ddl_in_body = refl

options_on : has_xact_abort_on (tokenize (codes "SET NOCOUNT, XACT_ABORT ON")) ≡ true
unfolding tokenize has_xact_abort_on
options_on = refl

twelve : decimal 120 ≡ codes "120"
unfolding decimal
twelve = refl

-- A ROLLBACK with no semicolon, whose next word starts the next statement or batch, is taken for one to
-- a savepoint, and the transaction for one that is never closed.
rolled_back :
    rules_of (begin_tran_without_commit (script (codes "BEGIN TRAN; DELETE t; ROLLBACK\nGO")))
    ≡ codes "tran.begin_without_commit" ∷ []
unfolding tokenize begin_tran_without_commit
rolled_back = refl

transaction_rules-exclusive_example :
    (not_both (begin_tran_without_try_catch committed) (begin_tran_without_commit committed) ≡ true)
    × (not_both (begin_tran_without_try_catch committed) (commit_rollback_without_begin committed)
        ≡ true)
    × (not_both (begin_tran_without_commit committed) (commit_rollback_without_begin committed)
        ≡ true)
transaction_rules-exclusive_example = transaction_rules-exclusive committed
