-- ===== src/Rules/Conditions.antt =====
-- crates/analyzer-core/src/rules/mod.rs, `search_condition_ids`: which WHERE, ON or HAVING a token
-- stands in. The stack is never empty: `top` is its last frame, and `below` holds the others, the
-- next one first. The list of tokens is not changed, and `i` is the place of the token at hand.
pub mod Groups
pub mod Fresh
pub mod Words
pub mod Ids
pub mod Outside
use dbopt.Base.{
  ℕ, zero, suc, ◌+◌, ◌-◌, Bool, true, false, not, ◌&&◌, ◌||◌, Option, none, some, List, [], ◌∷◌,
  map, ltb, ◌==◌, if◌then◌else◌, u32, get_elem?, take, any,
}
use dbopt.Base.Bytes.{Bytes, codes, eq_bytes}
use dbopt.Tokens.{Token}
use dbopt.Rules.{is_word_kind, is_comment_kind, is_keyword_at, is_batch_separator}

pub record Frame : Type 0 where
  pub cond : ℕ
  pub case_depth : ℕ
  pub dml : Bool
  pub in_update : Bool

-- The variables of the loop.
pub record Walk : Type 0 where
  pub next_id : ℕ
  pub top : Frame
  pub below : List Frame

abbrev pub first_walk : Walk
first_walk = record {
  next_id = 0;
  top = record { cond = 0; case_depth = 0; dml = true; in_update = false };
  below = [];
}

abbrev pub closers : List Bytes
closers = map codes (
    "SELECT" ∷ "FROM" ∷ "GROUP" ∷ "ORDER" ∷ "SET" ∷ "INSERT" ∷ "UPDATE" ∷ "DELETE" ∷ "MERGE"
    ∷ "VALUES" ∷ "OUTPUT" ∷ "INTO" ∷ "OPTION" ∷ "UNION" ∷ "EXCEPT" ∷ "INTERSECT" ∷ "FOR" ∷ "IF"
    ∷ "WHILE" ∷ "BEGIN" ∷ "RETURN" ∷ "PRINT" ∷ "RAISERROR" ∷ "THROW" ∷ "GOTO" ∷ "BREAK" ∷ "CONTINUE"
    ∷ "WAITFOR" ∷ "DECLARE" ∷ "CREATE" ∷ "ALTER" ∷ "DROP" ∷ "GRANT" ∷ "REVOKE" ∷ "DENY" ∷ "EXEC"
    ∷ "EXECUTE" ∷ "USE" ∷ "OPEN" ∷ "FETCH" ∷ "CLOSE" ∷ "DEALLOCATE" ∷ "TRUNCATE" ∷ "COMMIT"
    ∷ "ROLLBACK" ∷ "SAVE" ∷ "BACKUP" ∷ "RESTORE" ∷ "DBCC" ∷ "KILL" ∷ "JOIN" ∷ "APPLY" ∷ "PIVOT"
    ∷ "UNPIVOT" ∷ [])

abbrev pub dml_words : List Bytes
dml_words = map codes ("SELECT" ∷ "INSERT" ∷ "UPDATE" ∷ "DELETE" ∷ "MERGE" ∷ [])

abbrev pub not_dml_words : List Bytes
not_dml_words = map codes (
    "CREATE" ∷ "ALTER" ∷ "DROP" ∷ "SET" ∷ "GRANT" ∷ "REVOKE" ∷ "DENY" ∷ "DECLARE" ∷ "EXEC"
    ∷ "EXECUTE" ∷ "BACKUP" ∷ "RESTORE" ∷ "DBCC" ∷ "USE" ∷ [])

-- `stack.push` at a token `(`
unfoldable pub push_frame : Walk → Walk
push_frame w = record w { top = record w.top { case_depth = 0 }; below = w.top ∷ w.below }

-- `if stack.len() > 1 { stack.pop(); }` at a token `)`
unfoldable pub pop_frame : Walk → Walk
pop_frame w = elim w.below [ [] ↦ w | f ∷ fs ↦ record w { top = f; below = fs } ]

-- A `;` or a batch separator.
unfoldable pub end_statement : Walk → Walk
end_statement w = record w {
  top = record { cond = 0; case_depth = 0; dml = true; in_update = false };
}

unfoldable pub open_condition : Walk → Walk
open_condition w =
    let id = u32 (w.next_id + 1) in
    record w { next_id = id; top = record w.top { cond = id; case_depth = 0 } }

unfoldable pub close_condition : List Token → ℕ → Frame → Frame
unfolding is_keyword_at
close_condition tokens i top =
    let shut = record top { cond = 0; case_depth = 0 } in
    if any (is_keyword_at tokens i) dml_words
    then record shut { dml = true; in_update = is_keyword_at tokens i (codes "UPDATE") }
    else if is_keyword_at tokens i (codes "SET") && top.in_update
    then shut
    else if any (is_keyword_at tokens i) not_dml_words
    then record shut { dml = false; in_update = false }
    else shut

-- The chain of tests on a word.
unfoldable pub read_word : List Token → ℕ → Walk → Walk
unfolding is_keyword_at open_condition close_condition
read_word tokens i w =
    let top = w.top in
    if is_keyword_at tokens i (codes "CASE")
    then record w { top = record top { case_depth = u32 (top.case_depth + 1) } }
    else if is_keyword_at tokens i (codes "END") && ltb 0 top.case_depth
    then record w { top = record top { case_depth = top.case_depth - 1 } }
    else if (is_keyword_at tokens i (codes "END")
          || is_keyword_at tokens i (codes "ELSE")
          || is_keyword_at tokens i (codes "WHEN"))
        && top.case_depth == 0
    then record w { top = record top { cond = 0 } }
    else if is_keyword_at tokens i (codes "WHERE") || is_keyword_at tokens i (codes "HAVING")
    then open_condition w
    else if is_keyword_at tokens i (codes "ON")
    then (if top.dml then open_condition w else w)
    else if any (is_keyword_at tokens i) closers
    then record w { top = close_condition tokens i top }
    else w

-- What one round of the loop leaves, and the entry that it writes to `ids`.
pub record Marked : Type 0 where
  pub walk : Walk
  pub id : ℕ

abbrev marked_top : Walk → Marked
marked_top w = record { walk = w; id = w.top.cond }

abbrev pub is_end : List Token → ℕ → Token → Bool
is_end tokens i t = eq_bytes t.text (codes ";") || is_batch_separator tokens i

unfoldable pub mark : List Token → ℕ → Token → Walk → Marked
unfolding push_frame pop_frame end_statement read_word eq_bytes is_batch_separator
mark tokens i t w =
    if is_comment_kind t.kind
    then record { walk = w; id = 0 }
    else if eq_bytes t.text (codes "(")
    then record { walk = push_frame w; id = w.top.cond }
    else if eq_bytes t.text (codes ")")
    then marked_top (pop_frame w)
    else if is_end tokens i t
    then record { walk = end_statement w; id = 0 }
    else marked_top (if is_word_kind t.kind then read_word tokens i w else w)

-- The loop from the place `i` on; `ts` are the tokens from there.
unfoldable pub ids_from : List Token → ℕ → Walk → List Token → List ℕ
unfolding mark
ids_from tokens i w [] = []
ids_from tokens i w (t ∷ ts) = let m = mark tokens i t w in m.id ∷ ids_from tokens (i + 1) m.walk ts

unfoldable pub search_condition_ids : List Token → List ℕ
unfolding ids_from
search_condition_ids tokens = ids_from tokens 0 first_walk tokens

-- `tokens[..upto]` with `upto` cut at the number of tokens is what `take` gives.
unfoldable pub search_condition_context : List Token → ℕ → Bool
unfolding search_condition_ids
search_condition_context tokens i =
    elim (get_elem? (search_condition_ids (take (i + 1) tokens)) i) [
      | none ↦ false
      | some id ↦ not (id == 0)
    ]
