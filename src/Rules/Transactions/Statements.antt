-- ===== src/Rules/Transactions/Statements.antt =====
-- crates/analyzer-core/src/rules/transactions.rs: the SET of XACT_ABORT, data statements, rollbacks to a
-- savepoint and the bodies of triggers.
use dbopt.Base.{
  ℕ, zero, suc, ◌+◌, Bool, true, false, not, ◌&&◌, ◌||◌, none, some, List, if◌then◌else◌, get_elem?,
  length,
}
use dbopt.Base.Bytes.{codes, eq_bytes, starts_with}
use dbopt.Tokens.{Token}
use dbopt.Rules.{is_word_kind, is_comment_kind, holds_at}
use dbopt.Rules.Transactions.{
  is_kw, kw_at, text_at, comment_at, next_code, rollback_target, any_from,
}

-- A token that the search for XACT_ABORT in the options of a SET passes over.
unfoldable pub is_passed_option : Token → Bool
unfolding is_kw eq_bytes
is_passed_option t =
    not (is_kw t (codes "XACT_ABORT"))
    && (eq_bytes t.text (codes ",") || is_word_kind t.kind)
    && not (is_kw t (codes "ON"))
    && not (is_kw t (codes "OFF"))
    && not (eq_bytes t.text (codes ";"))

unfoldable pub find_option : List Token → ℕ → ℕ → ℕ
unfolding is_passed_option next_code
find_option tokens j zero = j
find_option tokens j (suc left) =
    let later = find_option tokens (next_code tokens (j + 1)) left in
    if holds_at is_passed_option (get_elem? tokens j) then later else j

-- The walk over a list of options that share one ON.
unfoldable pub shared_on : List Token → ℕ → ℕ → Bool
unfolding is_kw eq_bytes
shared_on tokens m zero = false
shared_on tokens m (suc left) =
    let later = shared_on tokens (m + 1) left in
    elim (get_elem? tokens m) [
      | none ↦ false
      | some t ↦
          if is_comment_kind t.kind
          then later
          else if eq_bytes t.text (codes ",")
          then later
          else if eq_bytes t.text (codes ";")
          then false
          else if is_word_kind t.kind
          then (if is_kw t (codes "ON")
              then true
              else if is_kw t (codes "OFF")
              then false
              else later)
          else false
    ]

-- The body of the loop of `has_xact_abort_on`.
unfoldable pub sets_xact_abort : List Token → ℕ → Bool
unfolding kw_at find_option shared_on next_code eq_bytes
sets_xact_abort tokens i =
    let j = find_option tokens (next_code tokens (i + 1)) (length tokens) in
    let k = next_code tokens (j + 1) in
    if not (kw_at tokens i (codes "SET"))
    then false
    else if not (kw_at tokens j (codes "XACT_ABORT"))
    then false
    else if kw_at tokens k (codes "ON")
    then true
    else text_at tokens k (codes ",") && shared_on tokens k (length tokens)

unfoldable pub has_xact_abort_on : List Token → Bool
unfolding sets_xact_abort any_from
has_xact_abort_on tokens = any_from (sets_xact_abort tokens) 0 (length tokens)

unfoldable pub is_update_statistics : List Token → ℕ → Bool
unfolding kw_at next_code
is_update_statistics tokens i =
    kw_at tokens i (codes "UPDATE") && kw_at tokens (next_code tokens (i + 1)) (codes "STATISTICS")

-- What may stand in front of a statement.
unfoldable pub is_opener_token : Token → Bool
unfolding is_kw eq_bytes
is_opener_token prev =
    eq_bytes prev.text (codes ";")
    || is_kw prev (codes "BEGIN")
    || is_kw prev (codes "THEN")
    || is_kw prev (codes "ELSE")
    || is_kw prev (codes "END")
    || is_kw prev (codes "GO")
    || is_kw prev (codes "AS")

-- The loop back over the comments in front of `p`.
unfoldable pub opens_before : List Token → ℕ → Bool
unfolding is_opener_token
opens_before tokens zero = true
opens_before tokens (suc p) =
    let earlier = opens_before tokens p in
    if comment_at tokens p then earlier else holds_at is_opener_token (get_elem? tokens p)

unfoldable pub is_data_stmt_start : List Token → ℕ → Bool
unfolding kw_at is_update_statistics opens_before
is_data_stmt_start tokens i =
    (kw_at tokens i (codes "INSERT")
      || kw_at tokens i (codes "UPDATE")
      || kw_at tokens i (codes "DELETE")
      || kw_at tokens i (codes "MERGE"))
    && not (is_update_statistics tokens i)
    && opens_before tokens i

-- A word that is no variable, behind ROLLBACK and TRAN.
unfoldable pub is_savepoint_rollback : List Token → ℕ → Bool
unfolding next_code kw_at starts_with
is_savepoint_rollback tokens i =
    holds_at (λ t. is_word_kind t.kind && not (starts_with (codes "@") t.text))
      (get_elem? tokens (rollback_target tokens i))

abbrev creates_before : List Token → ℕ → Bool
creates_before tokens zero = false
creates_before tokens (suc q) = kw_at tokens q (codes "CREATE") || kw_at tokens q (codes "ALTER")

-- Does the header of a trigger stand before this place, with no GO in between?
unfoldable pub inside_trigger_body : List Token → ℕ → Bool
unfolding kw_at
inside_trigger_body tokens zero = false
inside_trigger_body tokens (suc k) =
    let earlier = inside_trigger_body tokens k in
    if kw_at tokens k (codes "GO")
    then false
    else if kw_at tokens k (codes "TRIGGER") && creates_before tokens k
    then true
    else earlier
