-- ===== src/Rules/Transactions/Reports.antt =====
-- What the rules on the beginnings and ends of transactions report, and that they do not contradict
-- each other.
use dbopt.Base.{
  ℕ, zero, suc, ◌+◌, ◌-◌, ◌≤◌, ◌<◌, ◌≡◌, refl, ap, ◌∙◌, Bool, true, false, ◌||◌, Bool-cases,
  Option-cases, inl, inr, none, List, [], ◌∷◌, length, arith,
}
use dbopt.Base.Bytes.{codes}
use dbopt.Base.Text.{is_empty}
use dbopt.Findings.{Finding}
use dbopt.Tokens.{Token}
use dbopt.Analyze.{RuleCtx}
use dbopt.Rules.Transactions.{begin_tran_at, is_commit_at, any_from}
use dbopt.Rules.Transactions.Checks.{
  no_counts, begins_at, is_close_at, without_commit_at, judge_counts, begin_tran_without_commit,
  without_try_catch_from, begin_tran_without_try_catch, commit_rollback_without_begin,
}
use dbopt.Rules.Transactions.Begins.{begin_tran_at-Begins}
use dbopt.Rules.Transactions.Quiet.{kw_at-bound}
use dbopt.Rules.Transactions.Places.{rest, places, places-false, any_from-places}
use dbopt.Rules.Transactions.Counted.{counted, count_from-Counted}

-- All places of the tokens at which a transaction begins, and those of what the rule takes for its end.
abbrev pub all_begins : List Token → List ℕ
all_begins tokens = places (begins_at tokens) 0 (length tokens)

abbrev pub all_closes : List Token → List ℕ
all_closes tokens = places (is_close_at tokens) 0 (length tokens)

-- One finding on the first beginning if there is one and no such end, and none otherwise.
abbrev pub unclosed : List Token → List ℕ → List ℕ → List Finding
unclosed tokens [] closes = []
unclosed tokens (b ∷ begins) [] = without_commit_at tokens b ∷ []
unclosed tokens (b ∷ begins) (c ∷ closes) = []

judge_counts-unclosed :
    (tokens : List Token) (begins closes : List ℕ)
    → judge_counts tokens (counted no_counts begins closes) ≡ unclosed tokens begins closes
unfolding judge_counts
judge_counts-unclosed tokens [] closes = ground arith
judge_counts-unclosed tokens (b ∷ begins) [] = ground arith
judge_counts-unclosed tokens (b ∷ begins) (c ∷ closes) = ground arith

pub begin_tran_without_commit-unclosed :
    (ctx : RuleCtx)
    → begin_tran_without_commit ctx
      ≡ unclosed ctx.tokens (all_begins ctx.tokens) (all_closes ctx.tokens)
unfolding begin_tran_without_commit
begin_tran_without_commit-unclosed ctx =
    let tokens = ctx.tokens in
    let n : length tokens - 0 ≡ length tokens = omega arith in
    let enough : length tokens ≤ 0 + length tokens = omega arith in
    ap (judge_counts tokens) (count_from-Counted tokens (length tokens) 0 no_counts enough)
    ∙ judge_counts-unclosed tokens (rest tokens (begins_at tokens) 0)
        (rest tokens (is_close_at tokens) 0)
    ∙ ap (λ k. unclosed tokens (places (begins_at tokens) 0 k) (places (is_close_at tokens) 0 k)) n

any_from-false :
    (p : ℕ → Bool) (i n : ℕ) → ((m : ℕ) → m < i + n → p m ≡ false) → any_from p i n ≡ false
unfolding any_from
any_from-false p i zero h = refl
any_from-false p i (suc n) h =
    let here : p i ≡ false = h i (omega arith) in
    rw here (any_from-false p (i + 1) n (λ m lt. h m (omega (arith, lt))))

module _ (tokens : List Token) where
  close_commit : (m : ℕ) → is_close_at tokens m ≡ false → is_commit_at tokens m ≡ false
  unfolding is_close_at
  close_commit m h = elim (Bool-cases (is_commit_at tokens m)) [
    | inl e ↦ let no = rw e at h in absurd cc
    | inr e ↦ e
  ]

  -- No COMMIT, nothing to report on a missing TRY.
  without_try_catch_from-close :
      (i left : ℕ) → is_empty (all_closes tokens) ≡ true → without_try_catch_from tokens i left ≡ []
  unfolding without_try_catch_from
  without_try_catch_from-close i zero h = refl
  without_try_catch_from-close i (suc left) h = elim (Option-cases (begin_tran_at tokens i)) [
    | inl e ↦ rw (without_try_catch_from, e) (without_try_catch_from-close (i + 1) left h)
    | inr (k, e) ↦
        let b = begin_tran_at-Begins tokens i k e in
        let bound = kw_at-bound tokens i (codes "BEGIN") b.begin in
        let none_behind : any_from (is_commit_at tokens) (i + 1) (length tokens - (i + 1)) ≡ false =
          any_from-false (is_commit_at tokens) (i + 1) (length tokens - (i + 1)) λ m lt.
            close_commit m (
              places-false (is_close_at tokens) 0 (length tokens) m h (omega arith)
                (omega (arith, lt, bound))) in
        rw (without_try_catch_from, e, none_behind) (without_try_catch_from-close (k + 1) left h)
  ]

  no_begin : (i : ℕ) → is_empty (all_begins tokens) ≡ true → begin_tran_at tokens i ≡ none
  no_begin i h = elim (Option-cases (begin_tran_at tokens i)) [
    | inl e ↦ e
    | inr (k, e) ↦
        let b = begin_tran_at-Begins tokens i k e in
        let bound = kw_at-bound tokens i (codes "BEGIN") b.begin in
        let no =
          places-false (begins_at tokens) 0 (length tokens) i h (omega arith)
            (omega (arith, bound)) in
        let yes : begins_at tokens i ≡ true = rw (e, begins_at) refl in absurd cc
  ]

  without_try_catch_from-begin :
      (i left : ℕ) → is_empty (all_begins tokens) ≡ true → without_try_catch_from tokens i left ≡ []
  unfolding without_try_catch_from
  without_try_catch_from-begin i zero h = refl
  without_try_catch_from-begin i (suc left) h =
      rw (without_try_catch_from, no_begin i h) (without_try_catch_from-begin (i + 1) left h)

  without_try_catch-nothing :
      (ctx : RuleCtx)
      → ctx.tokens ≡ tokens
      → ((i left : ℕ) → without_try_catch_from tokens i left ≡ [])
      → begin_tran_without_try_catch ctx ≡ []
  unfolding begin_tran_without_try_catch
  without_try_catch-nothing ctx e h = rw e (ground (arith, h 0 (length tokens)))

-- Both are empty, or one of them.
abbrev pub not_both : List Finding → List Finding → Bool
not_both a b = is_empty a || is_empty b

not_both-left : (a b : List Finding) → a ≡ [] → not_both a b ≡ true
not_both-left a b e = rw e

not_both-right : (a b : List Finding) → b ≡ [] → not_both a b ≡ true
not_both-right a b e = rw e (ground arith)

unclosed-close :
    (tokens : List Token) (begins closes : List ℕ)
    → is_empty closes ≡ false
    → unclosed tokens begins closes ≡ []
unclosed-close tokens [] closes h = refl
unclosed-close tokens (b ∷ begins) [] h = absurd cc
unclosed-close tokens (b ∷ begins) (c ∷ closes) h = refl

unclosed-begin :
    (tokens : List Token) (begins closes : List ℕ)
    → is_empty begins ≡ true
    → unclosed tokens begins closes ≡ []
unclosed-begin tokens [] closes h = refl
unclosed-begin tokens (b ∷ begins) closes h = absurd cc

without_begin-nothing :
    (ctx : RuleCtx)
    → is_empty (all_begins ctx.tokens) ≡ false
    → commit_rollback_without_begin ctx ≡ []
unfolding commit_rollback_without_begin
without_begin-nothing ctx h =
    let some_begin = any_from-places (begins_at ctx.tokens) 0 (length ctx.tokens) in
    rw (some_begin, h) refl

-- The rules on a BEGIN TRAN without TRY, on one without an end, and on an end without BEGIN TRAN do not
-- contradict each other: at most one of the three reports anything on a script.
pub transaction_rules-exclusive :
    (ctx : RuleCtx)
    → (not_both (begin_tran_without_try_catch ctx) (begin_tran_without_commit ctx) ≡ true)
      × (not_both (begin_tran_without_try_catch ctx) (commit_rollback_without_begin ctx) ≡ true)
      × (not_both (begin_tran_without_commit ctx) (commit_rollback_without_begin ctx) ≡ true)
transaction_rules-exclusive ctx =
    let tokens = ctx.tokens in
    let a = begin_tran_without_try_catch ctx in
    let b = begin_tran_without_commit ctx in
    let c = commit_rollback_without_begin ctx in
    let b_is = begin_tran_without_commit-unclosed ctx in
    elim (Bool-cases (is_empty (all_begins tokens))) [
      | inl e ↦
          let a_nil =
            without_try_catch-nothing tokens ctx refl
              λ i left. without_try_catch_from-begin tokens i left e in
          let b_nil = b_is ∙ unclosed-begin tokens (all_begins tokens) (all_closes tokens) e in
          (not_both-left a b a_nil, not_both-left a c a_nil, not_both-left b c b_nil)
      | inr e ↦
          let c_nil = without_begin-nothing ctx e in
          (
            elim (Bool-cases (is_empty (all_closes tokens))) [
              | inl f ↦ not_both-left a b (
                  without_try_catch-nothing tokens ctx refl
                    λ i left. without_try_catch_from-close tokens i left f)
              | inr f ↦
                  not_both-right a b
                    (b_is ∙ unclosed-close tokens (all_begins tokens) (all_closes tokens) f)
            ],
            not_both-right a c c_nil,
            not_both-right b c c_nil,
          )
    ]
