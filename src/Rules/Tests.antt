-- ===== src/Rules/Tests.antt =====
-- Batch separators, neighbours and search conditions in concrete scripts, and the theorems on them there.
use dbopt.Base.{
  ◌↔◌, ℕ, ◌+◌, ◌≡◌, ◌<◌, ◌≤◌, refl, true, false, none, some, List, [], ◌∷◌, get_elem?, take, drop,
  arith,
}
use dbopt.Base.Bytes.{codes, eq_bytes}
use dbopt.Tokens.{punct, Token, tokenize}
use dbopt.Rules.{
  is_system_source, prev_significant, next_significant, is_keyword_at, is_batch_separator,
}
use dbopt.Rules.Significant.{Prev, Next, significant-Neighbours}
use dbopt.Rules.Conditions.{search_condition_ids, search_condition_context}
use dbopt.Rules.Conditions.Groups.{Resumes, search_condition_ids-Resumes}
use dbopt.Rules.Conditions.Outside.{search_condition_ids-outside}
use dbopt.Rules.Conditions.Ids.{search_condition_ids-opener}
use dbopt.Rules.Batches.{AloneOnLine, is_batch_separator_iff}

abbrev two_batches : List Token
two_batches = tokenize (codes "SELECT 1 -- one\nGO /* two */\nSELECT 2 AS go")

separators : (is_batch_separator two_batches 3 ≡ true) × (is_batch_separator two_batches 8 ≡ false)
unfolding is_batch_separator tokenize
separators = (refl, refl)

qualified : is_keyword_at (tokenize (codes "dbo.Merge")) 2 (codes "MERGE") ≡ false
unfolding is_keyword_at tokenize
qualified = refl

significant-Neighbours_example :
    Prev two_batches 3 (prev_significant two_batches 3)
    × Next two_batches 3 (next_significant two_batches 3)
significant-Neighbours_example = significant-Neighbours two_batches 3

-- The literal ends on the line of the GO, but does not begin there.
behind_literal : is_batch_separator (tokenize (codes "PRINT 'x\ny' GO")) 2 ≡ true
unfolding is_batch_separator tokenize
behind_literal = refl

is_batch_separator_iff_example :
    (is_batch_separator two_batches 3 ≡ true) ↔ AloneOnLine two_batches 3
unfolding tokenize
is_batch_separator_iff_example = is_batch_separator_iff two_batches 3 refl

abbrev with_subquery : List Token
with_subquery = tokenize (codes "SELECT a WHERE b IN (SELECT c WHERE d) AND e GROUP BY f")

subquery_ids :
    search_condition_ids with_subquery
    ≡ 0 ∷ 0 ∷ 1 ∷ 1 ∷ 1 ∷ 1 ∷ 0 ∷ 0 ∷ 2 ∷ 2 ∷ 1 ∷ 1 ∷ 1 ∷ 0 ∷ 0 ∷ 0 ∷ []
unfolding search_condition_ids tokenize
subquery_ids = refl

search_condition_ids-opener_example : (1 < 2) × (2 ≤ 8 + 1)
unfolding search_condition_ids tokenize is_keyword_at
search_condition_ids-opener_example =
    search_condition_ids-opener with_subquery 4 8 1 2 (omega arith) refl (omega arith) refl refl

-- Parentheses, an UPDATE and a second statement, with no condition.
abbrev no_condition : List Token
no_condition = tokenize (codes "UPDATE t SET a = (b)); SELECT c WHERE d")

search_condition_ids-outside_example : ◌≡◌ {A = ℕ} 0 0
unfolding search_condition_ids tokenize is_keyword_at
search_condition_ids-outside_example = search_condition_ids-outside no_condition 7 0 refl refl

abbrev subquery_parts : ℕ → Token
subquery_parts i = elim (get_elem? with_subquery i) [
  | none ↦ record { kind = punct; text = []; start = 0; stop = 0; line = 0; col = 0 }
  | some t ↦ t
]

search_condition_ids-Resumes_example :
    Resumes with_subquery (take 5 with_subquery) (take 6 (drop 5 with_subquery)) 10
unfolding tokenize eq_bytes
search_condition_ids-Resumes_example =
    search_condition_ids-Resumes (take 5 with_subquery) (subquery_parts 5)
      (take 4 (drop 6 with_subquery)) (subquery_parts 10) (drop 11 with_subquery) refl refl refl

-- A name `go` that ends a line reads as a batch separator if the text is cut behind it.
abbrev go_column : List Token
go_column = tokenize (codes "SELECT a WHERE\ngo = 1")

context_of_prefix :
    (get_elem? (search_condition_ids go_column) 3 ≡ some 1)
    × (search_condition_context go_column 3 ≡ false)
unfolding search_condition_ids search_condition_context tokenize
context_of_prefix = (refl, refl)

system_names :
    (is_system_source (tokenize (codes "tempdb.sys.objects")) 0 ≡ true)
    × (is_system_source (tokenize (codes "dbo.sys")) 0 ≡ false)
unfolding is_system_source tokenize
system_names = (refl, refl)
