-- ===== src/Rules/Transactions/Checks.antt =====
-- crates/analyzer-core/src/rules/transactions.rs: the rules.
use dbopt.Base.{
  ℕ, zero, suc, ◌+◌, ◌-◌, Bool, true, false, not, ◌&&◌, ◌||◌, Option, none, some, List, [], ◌∷◌,
  ◌++◌, ltb, ◌==◌, if◌then◌else◌, get_elem?, length,
}
use dbopt.Base.Bytes.{Bytes, codes}
use dbopt.Findings.{Location, warning, Finding}
use dbopt.Tokens.{Token}
use dbopt.Analyze.{RuleCtx}
use dbopt.Rules.{make_loc, finding}
use dbopt.Rules.Transactions.{
  begin_tran_at, is_commit_at, is_rollback_at, rolls_back_to_savepoint, collect_savepoints,
  guarded_by_trancount, any_from, has_try_block,
}
use dbopt.Rules.Transactions.Statements.{is_savepoint_rollback, inside_trigger_body}
use dbopt.Rules.Transactions.Texts

abbrev pub location_at : List Token → ℕ → Option Location
location_at tokens i = elim (get_elem? tokens i) [ none ↦ none | some t ↦ some (make_loc t) ]

unfoldable pub without_try_catch_at : List Token → ℕ → Finding
without_try_catch_at tokens i =
    finding (codes "tran.begin_without_try_catch") warning Texts.without_try_catch_message
      (location_at tokens i) (some Texts.without_try_catch_advice)

-- The loop of `begin_tran_without_try_catch` from `i` on.
unfoldable pub without_try_catch_from : List Token → ℕ → ℕ → List Finding
unfolding begin_tran_at is_commit_at any_from without_try_catch_at
without_try_catch_from tokens i zero = []
without_try_catch_from tokens i (suc left) = elim (begin_tran_at tokens i) [
  | none ↦ without_try_catch_from tokens (i + 1) left
  | some tran_kw ↦
      (if any_from (is_commit_at tokens) (i + 1) (length tokens - (i + 1))
        then without_try_catch_at tokens i ∷ []
        else [])
      ++ without_try_catch_from tokens (tran_kw + 1) left
]

abbrev pub any_rollback : List Token → Bool
any_rollback tokens = any_from (is_rollback_at tokens) 0 (length tokens)

unfoldable pub begin_tran_without_try_catch : RuleCtx → List Finding
unfolding has_try_block any_from is_rollback_at without_try_catch_from
begin_tran_without_try_catch ctx =
    if has_try_block ctx.tokens
    then []
    else if any_rollback ctx.tokens
    then []
    else without_try_catch_from ctx.tokens 0 (length ctx.tokens)

-- The variables of the loop of `begin_tran_without_commit`.
pub record Counts : Type 0 where
  pub first_begin : Option ℕ
  pub begin_count : ℕ
  pub close_count : ℕ

abbrev pub no_counts : Counts
no_counts = record { first_begin = none; begin_count = 0; close_count = 0 }

-- A COMMIT, or a ROLLBACK that is not one to a savepoint.
unfoldable pub is_close_at : List Token → ℕ → Bool
unfolding is_commit_at is_rollback_at is_savepoint_rollback
is_close_at tokens i =
    is_commit_at tokens i || (is_rollback_at tokens i && not (is_savepoint_rollback tokens i))

abbrev pub or_first : Option ℕ → ℕ → Option ℕ
or_first none i = some i
or_first (some b) i = some b

unfoldable pub count_from : List Token → Counts → ℕ → ℕ → Counts
unfolding begin_tran_at is_close_at
count_from tokens st i zero = st
count_from tokens st i (suc left) = elim (begin_tran_at tokens i) [
  | some tran_kw ↦
      count_from tokens
        (record st { first_begin = or_first st.first_begin i; begin_count = st.begin_count + 1 })
        (tran_kw + 1) left
  | none ↦
      count_from tokens
        (if is_close_at tokens i then record st { close_count = st.close_count + 1 } else st)
        (i + 1) left
]

unfoldable pub without_commit_at : List Token → ℕ → Finding
without_commit_at tokens b =
    finding (codes "tran.begin_without_commit") warning Texts.without_commit_message
      (location_at tokens b) (some Texts.without_commit_advice)

-- What the counts make of the rule.
unfoldable pub judge_counts : List Token → Counts → List Finding
unfolding without_commit_at
judge_counts tokens st =
    if ltb 0 st.begin_count && st.close_count == 0
    then elim st.first_begin [ none ↦ [] | some b ↦ without_commit_at tokens b ∷ [] ]
    else []

unfoldable pub begin_tran_without_commit : RuleCtx → List Finding
unfolding count_from judge_counts
begin_tran_without_commit ctx =
    judge_counts ctx.tokens (count_from ctx.tokens no_counts 0 (length ctx.tokens))

-- Does the place begin a transaction?
abbrev pub begins_at : List Token → ℕ → Bool
begins_at tokens i = elim (begin_tran_at tokens i) [ none ↦ false | some k ↦ true ]

unfoldable pub without_begin_at : List Token → ℕ → Finding
without_begin_at tokens i =
    let verb = if is_commit_at tokens i then codes "COMMIT" else codes "ROLLBACK" in
    finding (codes "tran.close_without_begin") warning (verb ++ Texts.without_begin_message_tail)
      (location_at tokens i) (some Texts.without_begin_advice)

-- A COMMIT or ROLLBACK for which no excuse is found.
unfoldable pub is_unowned_close : List Token → List Bytes → ℕ → Bool
unfolding is_commit_at is_rollback_at rolls_back_to_savepoint guarded_by_trancount
    inside_trigger_body
is_unowned_close tokens savepoints i =
    let rollback = is_rollback_at tokens i in
    if is_commit_at tokens i || rollback
    then (if rollback && rolls_back_to_savepoint tokens i savepoints
        then false
        else if guarded_by_trancount tokens i
        then false
        else if rollback && inside_trigger_body tokens i
        then false
        else true)
    else false

unfoldable pub without_begin_from : List Token → List Bytes → ℕ → ℕ → List Finding
unfolding is_unowned_close without_begin_at
without_begin_from tokens savepoints i zero = []
without_begin_from tokens savepoints i (suc left) =
    let later = without_begin_from tokens savepoints (i + 1) left in
    if is_unowned_close tokens savepoints i then without_begin_at tokens i ∷ [] else later

unfoldable pub commit_rollback_without_begin : RuleCtx → List Finding
unfolding begin_tran_at any_from collect_savepoints without_begin_from
commit_rollback_without_begin ctx =
    if any_from (begins_at ctx.tokens) 0 (length ctx.tokens)
    then []
    else without_begin_from ctx.tokens (collect_savepoints ctx.tokens) 0 (length ctx.tokens)
