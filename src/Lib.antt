-- ===== src/Lib.antt =====
-- A model of dbopt, the static and live analyzer for SQL Server: the path of a script from its bytes
-- on disk to the exit code of `dbopt lint`, and the tasks and the alerting of the sentinel that
-- watches instances.
--
-- The program's parts, and where they are modelled:
--   * crates/analyzer-core/src/tokens.rs, the lexer, in Tokens. `tokenize_from` is the loop of
--     `tokenize`; `scan` is the match on the byte at hand, with one function per arm, and `move` is
--     the update of offset, line and column. Tokens/Measure and Tokens/Scans are about what a scan
--     consumes, Tokens/Tiles about all tokens of a text, Tokens/Literals about literals.
--   * crates/analyzer-cli/src/suppress.rs, directives in comments, in Suppress. `parse` goes over the
--     comment tokens of the lexer and fills a scope for the file and a map from lines to scopes;
--     `covers` asks them. Suppress/Refine compares both with the plain list of the directives.
--   * crates/analyzer-cli/src/source.rs, decoding and the sniffing of the kind of input, in Source.
--   * crates/analyzer-core/src/findings.rs in Findings; `analyze` of crates/analyzer-core/src/lib.rs
--     and `run_all` of crates/analyzer-core/src/rules/mod.rs in Analyze; the timeline of
--     crates/analyzer-core/src/report.rs in Charts. `analyze` gathers the findings of the rules over
--     the tokens of the lexer, of the plan and of the DMV bundle, and sorts them. The helpers on
--     tokens of crates/analyzer-core/src/rules/mod.rs are in Rules, and `search_condition_ids`, which
--     says in which WHERE, ON or HAVING a token stands, in Rules/Conditions.
--   * crates/analyzer-core/src/rules/transactions.rs, five rules on transactions, in Rules/Transactions:
--     what they ask of the tokens there and in Statements, the rules in Checks and Bodies, and their
--     texts in Texts. Each is a function from the context of `run_all` to findings.
--   * crates/analyzer-cli/src/lint.rs, the command `dbopt lint`, in Lint: the arguments in Lint/Args,
--     the loop over the documents, the sort and the exit code in Lint, the cap of the findings of a
--     rule in Lint/Cap, and the JSON report and the SARIF log, with the look-up of
--     crates/analyzer-cli/src/rule_docs.rs, in Lint/Sarif. A document passes through `decode`,
--     `parse`, the sniffs and the analysis, and each finding through `push`, which asks `spec_matches`
--     and `covers`.
--   * crates/sentinel/src/alerts.rs, rules and their evaluation, in Sentinel/Alerts;
--     crates/sentinel/src/poll/alert_eval.rs, the pass over the rules, in Sentinel/AlertEval; the
--     table of fired alerts of crates/sentinel/src/storage.rs in Sentinel/AlertStore. A pass builds a
--     snapshot from the last telemetry, evaluates the rules against it, asks the table whether each
--     breach is new, inserts it, notifies the webhook, and marks the row.
--   * crates/sentinel/src/poll/waits.rs, the deltas of the wait statistics, in Sentinel/Waits;
--     crates/sentinel/src/poll/io_latency.rs, the latencies of the files, in Sentinel/IoLatency; and
--     crates/sentinel/src/poll/index_usage.rs in Sentinel/IndexUsage. The loop over the counters is in
--     Sentinel/Differences, the maps of the pollers in Sentinel/Keyed.
--   * crates/sentinel/src/scheduler.rs, the tasks of the sentinel, in Sentinel/Scheduler. `spawned` are
--     the tasks of `run`; `happen` is one event of the tasks side by side: the cancellation by
--     `Sentinel::stop`, a timer or the end of a poll, a task that leaves its loop, and a handle that
--     `run` gets past. A list of events is one interleaving.
-- Base holds what all share: tests on numbers, lists, bytes with the functions of `str`, UTF-8, and
-- Order the orderings and the stable sort of the standard library.
--
-- How the code is represented:
--   * A text is the list of the bytes of its UTF-8 form. Functions of the source that go over the
--     characters of a text and only test for ASCII characters go over its bytes.
--   * The fields of a token and the lines of suppressions are `u32` and wrap at 2^32, written out;
--     where a theorem needs that nothing wraps it bounds the length of the text. The nesting depth of
--     block comments, an `i32` in the lexer, is a natural number. A `usize` is 64 bits wide.
--   * The loop of the lexer runs on fuel, the length of the text; each round consumes a byte at least,
--     so that this is enough. The loops over indices of the rules on transactions run on as many rounds
--     as there are tokens, and each round goes on by a token at least. All other loops recurse on the
--     list that they go through.
--   * Maps are association lists, with each key once. Errors are values of data types in place of
--     their texts. Counters of SQL Server are not negative, and times are in milliseconds since
--     1970.
--   * The `f64` of the alert rules and of the latencies is a type parameter with the operations of
--     Sentinel/Floats, of which no law is assumed.
--
-- What is a parameter: of `analyze` the registry of rules, the plan analyzer and the DMV advisor; of
-- Lint the analysis of a document, the contents of files, the current directory and the texts on
-- rules; of the sentinel which statements of SQLite fail, the id of a new row, the webhook, what the
-- storage last recorded of an instance, and the replies of SQL Server for wait statistics, files and
-- indexes; of the scheduler when timers are ready and how polls end, which are events in any order.
--
-- What is not modelled: the other packs of rules, the parser of execution plans, the DMV and workload
-- advisors and the treemaps, all of them in crates/analyzer-core; the walk over directories, the
-- output for people and the serializing to JSON of the command line; the backend, the WebAssembly
-- binding and the evaluation harness; of the sentinel the reports, the other pollers and most of
-- the storage, which is SQL text.
pub mod Base
pub mod Tokens
pub mod Suppress
pub mod Source
pub mod Findings
pub mod Order
pub mod Charts
pub mod Analyze
pub mod Lint
pub mod Sentinel
pub mod Rules
