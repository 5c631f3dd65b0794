-- ===== src/Rules/Transactions.antt =====
-- crates/analyzer-core/src/rules/transactions.rs: what its rules ask of the tokens. A test on
-- `tokens[i]` behind `i < tokens.len()` is one on the token that `get_elem?` finds. Each loop over
-- indices recurses on a number of rounds that is at least that of the tokens that are left.
mod Tests
pub mod Statements
pub mod Texts
pub mod Checks
pub mod Bodies
pub mod Places
pub mod Begins
pub mod Quiet
pub mod Counted
pub mod Reports
pub mod Steps
pub mod Rounds
use dbopt.Base.{
  ℕ, zero, suc, ◌+◌, ◌-◌, Bool, true, false, not, ◌&&◌, ◌||◌, Option, none, some, List, [], ◌∷◌,
  ◌++◌, ltb, leb, ◌==◌, if◌then◌else◌, get_elem?, length, any,
}
use dbopt.Base.Bytes.{Bytes, codes, eq_bytes, starts_with, drop_while}
use dbopt.Tokens.{Token, word_eq_ci}
use dbopt.Rules.{is_word_kind, is_comment_kind, holds_at}

unfoldable pub is_kw : Token → Bytes → Bool
unfolding starts_with word_eq_ci
is_kw t kw =
    is_word_kind t.kind
    && not (starts_with (codes "[") t.text || starts_with (codes "\"") t.text)
    && word_eq_ci t.text kw

-- `i < tokens.len() && is_kw(&tokens[i], kw)`
unfoldable pub kw_at : List Token → ℕ → Bytes → Bool
unfolding is_kw
kw_at tokens i kw = holds_at (λ t. is_kw t kw) (get_elem? tokens i)

abbrev pub text_at : List Token → ℕ → Bytes → Bool
text_at tokens i s = holds_at (λ t. eq_bytes t.text s) (get_elem? tokens i)

abbrev pub word_at : List Token → ℕ → Bool
word_at tokens i = holds_at (λ t. is_word_kind t.kind) (get_elem? tokens i)

abbrev pub comment_at : List Token → ℕ → Bool
comment_at tokens i = holds_at (λ t. is_comment_kind t.kind) (get_elem? tokens i)

abbrev quote_before : List Token → ℕ → Bool
quote_before tokens zero = false
quote_before tokens (suc k) = text_at tokens k (codes "\"")

unfoldable pub is_quoted_ident : List Token → ℕ → Bool
unfolding eq_bytes
is_quoted_ident tokens i = quote_before tokens i && text_at tokens (i + 1) (codes "\"")

unfoldable pub skip_comments : List Token → ℕ → ℕ → ℕ
skip_comments tokens k zero = k
skip_comments tokens k (suc left) =
    let later = skip_comments tokens (k + 1) left in if comment_at tokens k then later else k

unfoldable pub next_code : List Token → ℕ → ℕ
unfolding skip_comments
next_code tokens from = skip_comments tokens from (length tokens - from)

-- TRAN or TRANSACTION
abbrev pub tran_word_at : List Token → ℕ → Bool
tran_word_at tokens j = kw_at tokens j (codes "TRAN") || kw_at tokens j (codes "TRANSACTION")

-- Where TRAN must stand: behind BEGIN, or behind the DISTRIBUTED that follows it.
abbrev pub tran_place : List Token → ℕ → ℕ
tran_place tokens i =
    let j = next_code tokens (i + 1) in
    if kw_at tokens j (codes "DISTRIBUTED") then next_code tokens (j + 1) else j

unfoldable pub begin_tran_at : List Token → ℕ → Option ℕ
unfolding kw_at next_code
begin_tran_at tokens i =
    if not (kw_at tokens i (codes "BEGIN"))
    then none
    else if tran_word_at tokens (tran_place tokens i)
    then some (tran_place tokens i)
    else none

unfoldable pub save_tran_name_at : List Token → ℕ → Option ℕ
unfolding kw_at next_code
save_tran_name_at tokens i =
    let j = next_code tokens (i + 1) in
    let k = next_code tokens (j + 1) in
    if not (kw_at tokens i (codes "SAVE"))
    then none
    else if not (tran_word_at tokens j)
    then none
    else if word_at tokens k
    then some k
    else none

unfoldable pub is_commit_at : List Token → ℕ → Bool
unfolding kw_at is_quoted_ident
is_commit_at tokens i = kw_at tokens i (codes "COMMIT") && not (is_quoted_ident tokens i)

unfoldable pub is_rollback_at : List Token → ℕ → Bool
unfolding kw_at is_quoted_ident
is_rollback_at tokens i = kw_at tokens i (codes "ROLLBACK") && not (is_quoted_ident tokens i)

-- Behind ROLLBACK, and TRAN if there is one.
abbrev pub rollback_target : List Token → ℕ → ℕ
rollback_target tokens i =
    let j = next_code tokens (i + 1) in
    if tran_word_at tokens j then next_code tokens (j + 1) else j

unfoldable pub rolls_back_to_savepoint : List Token → ℕ → List Bytes → Bool
unfolding kw_at next_code word_eq_ci
rolls_back_to_savepoint tokens i savepoints =
    if not (kw_at tokens i (codes "ROLLBACK"))
    then false
    else holds_at (λ t. is_word_kind t.kind && any (λ s. word_eq_ci s t.text) savepoints)
        (get_elem? tokens (rollback_target tokens i))

-- The loop of `collect_savepoints` from `i` on.
unfoldable pub savepoints_from : List Token → ℕ → ℕ → List Bytes
unfolding save_tran_name_at
savepoints_from tokens i zero = []
savepoints_from tokens i (suc left) =
    let rest = savepoints_from tokens (i + 1) left in
    elim (save_tran_name_at tokens i) [
      | none ↦ rest
      | some k ↦ elim (get_elem? tokens k) [ none ↦ rest | some t ↦ t.text ∷ rest ]
    ]

unfoldable pub collect_savepoints : List Token → List Bytes
unfolding savepoints_from
collect_savepoints tokens = savepoints_from tokens 0 (length tokens)

-- A word for @@TRANCOUNT or XACT_STATE.
abbrev is_guard : Token → Bool
is_guard t =
    let bare = drop_while (λ c. c == b'@') t.text in
    is_word_kind t.kind
    && (word_eq_ci bare (codes "TRANCOUNT") || word_eq_ci bare (codes "XACT_STATE"))

-- The loop back from `j`, with how many steps are left.
unfoldable pub guard_before : List Token → ℕ → ℕ → Bool
unfolding eq_bytes word_eq_ci
guard_before tokens zero steps = false
guard_before tokens (suc j) zero = false
guard_before tokens (suc j) (suc steps) =
    let earlier = guard_before tokens j steps in
    if text_at tokens j (codes ";")
    then false
    else if holds_at is_guard (get_elem? tokens j)
    then true
    else earlier

unfoldable pub guarded_by_trancount : List Token → ℕ → Bool
unfolding guard_before
guarded_by_trancount tokens i = guard_before tokens i 24

-- Does a test hold at one of the places from `i` on?
unfoldable pub any_from : (ℕ → Bool) → ℕ → ℕ → Bool
any_from p i zero = false
any_from p i (suc left) = p i || any_from p (i + 1) left

unfoldable pub has_try_block : List Token → Bool
unfolding kw_at next_code any_from
has_try_block tokens =
    any_from
      (λ i. kw_at tokens i (codes "BEGIN") && kw_at tokens (next_code tokens (i + 1)) (codes "TRY"))
      0 (length tokens)
