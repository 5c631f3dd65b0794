-- ===== src/Rules/Transactions/Texts.antt =====
-- crates/analyzer-core/src/rules/transactions.rs: the texts of the findings.
use dbopt.Base.Bytes.{Bytes}
use dbopt.Base.Utf8.{utf8}

abbrev pub without_try_catch_message : Bytes
without_try_catch_message =
    utf8
      "Explicit BEGIN TRAN … COMMIT with no TRY/CATCH and no rollback path. A mid-transaction error leaves the transaction open (the COMMIT never runs) and pooled connections can inherit it."

abbrev pub without_try_catch_advice : Bytes
without_try_catch_advice =
    utf8
      "Wrap the work and add a rollback path:\nBEGIN TRAN\n  INSERT ...;\n  UPDATE ...;\nCOMMIT;\n  -->\nSET XACT_ABORT ON;\nBEGIN TRY\n    BEGIN TRAN;\n      INSERT ...;\n      UPDATE ...;\n    COMMIT;\nEND TRY\nBEGIN CATCH\n    IF @@TRANCOUNT > 0 ROLLBACK;\n    THROW;\nEND CATCH;"

abbrev pub without_commit_message : Bytes
without_commit_message =
    utf8
      "BEGIN TRAN has no COMMIT or ROLLBACK anywhere in the batch — the transaction stays open past end-of-batch, holding locks and (on a pooled connection) leaking into the next request."

abbrev pub without_commit_advice : Bytes
without_commit_advice =
    utf8
      "Close every transaction you open. Add the matching COMMIT (and a ROLLBACK error path):\nBEGIN TRAN;\n  ...;\n  -->\nBEGIN TRY\n    BEGIN TRAN;\n      ...;\n    COMMIT;\nEND TRY\nBEGIN CATCH\n    IF @@TRANCOUNT > 0 ROLLBACK;\n    THROW;\nEND CATCH;"

abbrev pub without_begin_message_tail : Bytes
without_begin_message_tail =
    utf8
      " with no BEGIN TRAN in this batch. If a caller (or outer proc) owns the transaction, committing/rolling back here changes THEIR transaction; if nobody does, this raises error 3903/3902 ('no corresponding BEGIN TRANSACTION')."

abbrev pub without_begin_advice : Bytes
without_begin_advice =
    utf8
      "A procedure should only finalize a transaction it started. Guard on @@TRANCOUNT, or use a savepoint so an inner proc rolls back only its own work:\nROLLBACK;  -- assumes a transaction exists\n  -->\nIF @@TRANCOUNT > 0 AND XACT_STATE() = -1 ROLLBACK;   -- or, for inner scope:\nDECLARE @sp NVARCHAR(32) = 'proc_sp';\nIF @@TRANCOUNT > 0 SAVE TRAN @sp;  -- ... later: IF @@TRANCOUNT > 0 ROLLBACK TRAN @sp;"

abbrev pub missing_xact_abort_head : Bytes
missing_xact_abort_head = utf8 "Multi-statement transaction ("

abbrev pub missing_xact_abort_tail : Bytes
missing_xact_abort_tail =
    utf8
      " DML statements) with no `SET XACT_ABORT ON`. Without it, many run-time errors abort only the failing statement and leave the transaction open and half-applied."

abbrev pub missing_xact_abort_advice : Bytes
missing_xact_abort_advice =
    utf8
      "Set XACT_ABORT ON so any run-time error aborts and rolls back the whole transaction, and pair it with TRY/CATCH:\nBEGIN TRAN;\n  INSERT ...;\n  UPDATE ...;\nCOMMIT;\n  -->\nSET XACT_ABORT ON;\nBEGIN TRY\n    BEGIN TRAN;\n      INSERT ...;\n      UPDATE ...;\n    COMMIT;\nEND TRY\nBEGIN CATCH\n    IF @@TRANCOUNT > 0 ROLLBACK;\n    THROW;\nEND CATCH;"

abbrev pub ddl_message_tail : Bytes
ddl_message_tail =
    utf8
      " runs inside an explicit transaction. DDL takes a schema-modification (Sch-M) lock held for the transaction's entire lifetime — if the transaction is long-lived or waits on anything, every reader of that object blocks."

abbrev pub ddl_advice : Bytes
ddl_advice =
    utf8
      "Keep schema changes out of long-lived transactions, or make the transaction as short as possible and run DDL last. Never interleave DDL with steps that wait on user input or external calls:\nBEGIN TRAN;\n  ALTER TABLE dbo.Orders ADD Note nvarchar(200);\n  -- ... long-running work / waits ...\nCOMMIT;\n  -->\n-- run the ALTER on its own (auto-committed) statement, off the hot path\nALTER TABLE dbo.Orders ADD Note nvarchar(200);"
