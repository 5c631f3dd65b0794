-- ===== src/Rules/Transactions/Begins.antt =====
-- Where BEGIN TRAN stands, and what stands between its BEGIN and its TRAN.
use dbopt.Base.{
  ℕ, zero, suc, ◌+◌, ◌-◌, ◌≤◌, ◌<◌, ◌≡◌, refl, sym, true, false, Bool-cases, inl, inr, ◌⊎◌, ◌==◌,
  Option, none, some, some_inj, List, ltb, get_elem?, length, arith,
}
use dbopt.Base.Bytes.{Bytes, codes, eq_ignore_case}
use dbopt.Tokens.{TokKind, comment, Token, word_eq_ci}
use dbopt.Rules.{is_word_kind, is_comment_kind, holds_at}
use dbopt.Rules.Conditions.Words.{eq_ignore_case-other}
use dbopt.Rules.Transactions.{
  is_kw, kw_at, comment_at, skip_comments, next_code, tran_word_at, tran_place, begin_tran_at,
}

skip_comments-le :
    (tokens : List Token) (k left : ℕ)
    → (k ≤ skip_comments tokens k left) × (skip_comments tokens k left ≤ k + left)
unfolding skip_comments
skip_comments-le tokens k zero = (omega arith, omega arith)
skip_comments-le tokens k (suc left) = elim (Bool-cases (comment_at tokens k)) [
  | inl e ↦
      let later = skip_comments-le tokens (k + 1) left in
      rw e ((omega (arith, later.0), omega (arith, later.1)))
  | inr e ↦ rw e ((omega arith, omega arith))
]

skip_comments-comment :
    (tokens : List Token) (k left m : ℕ)
    → k ≤ m
    → m < skip_comments tokens k left
    → comment_at tokens m ≡ true
unfolding skip_comments
skip_comments-comment tokens k zero m lo hi = absurd (omega (arith, lo, hi))
skip_comments-comment tokens k (suc left) m lo hi = elim (Bool-cases (comment_at tokens k)) [
  | inl e ↦ elim (Bool-cases (k == m)) [
    | inl q ↦ let same : m ≡ k = ground (arith, q) in rw same e
    | inr q ↦
        let hi' = rw e at hi in
        skip_comments-comment tokens (k + 1) left m (ground (arith, lo, q)) hi'
  ]
  | inr e ↦ let hi' = rw e at hi in absurd (omega (arith, lo, hi'))
]

comment_no_word : (k : TokKind) → is_comment_kind k ≡ true → is_word_kind k ≡ false
comment_no_word comment h = refl
comment_no_word _ h = absurd cc

-- No keyword stands at a comment, and no other one where a keyword stands.
pub comment-kw_at :
    (tokens : List Token) (m : ℕ) (kw : Bytes)
    → comment_at tokens m ≡ true
    → kw_at tokens m kw ≡ false
unfolding kw_at is_kw
comment-kw_at tokens m kw h = at (get_elem? tokens m) h
  where
    at :
        (o : Option Token)
        → holds_at (λ t. is_comment_kind t.kind) o ≡ true
        → holds_at (λ t. is_kw t kw) o ≡ false
    at none h = refl
    at (some t) h = rw (comment_no_word t.kind h)

pub other-kw_at :
    (tokens : List Token) (m : ℕ) (kw other : Bytes)
    → kw_at tokens m kw ≡ true
    → eq_ignore_case kw other ≡ false
    → kw_at tokens m other ≡ false
unfolding kw_at is_kw word_eq_ci
other-kw_at tokens m kw other h n = at (get_elem? tokens m) h
  where
    at :
        (o : Option Token)
        → holds_at (λ t. is_kw t kw) o ≡ true
        → holds_at (λ t. is_kw t other) o ≡ false
    at none h = refl
    at (some t) h =
        let spelled : eq_ignore_case t.text kw ≡ true = ground (arith, h) in
        let no = eq_ignore_case-other t.text kw other spelled n in rw no (ground arith)

-- Behind the BEGIN at `i` its TRAN stands at `k`, and only comments and DISTRIBUTED in between.
pub record Begins (tokens : List Token) (i k : ℕ) : Type 0 where
  pub begin : kw_at tokens i (codes "BEGIN") ≡ true
  pub behind : i < k
  pub tran : tran_word_at tokens k ≡ true
  pub between :
      (m : ℕ)
      → i < m
      → m < k
      → (comment_at tokens m ≡ true) ⊎ (kw_at tokens m (codes "DISTRIBUTED") ≡ true)

pub next_code-le : (tokens : List Token) (from : ℕ) → from ≤ next_code tokens from
unfolding next_code
next_code-le tokens from = (skip_comments-le tokens from (length tokens - from)).0

next_code-comment :
    (tokens : List Token) (from m : ℕ)
    → from ≤ m
    → m < next_code tokens from
    → comment_at tokens m ≡ true
unfolding next_code
next_code-comment tokens from m lo hi =
    skip_comments-comment tokens from (length tokens - from) m lo hi

-- What stands before the place where TRAN must stand.
before_tran :
    (tokens : List Token) (i m : ℕ)
    → i < m
    → m < tran_place tokens i
    → (comment_at tokens m ≡ true) ⊎ (kw_at tokens m (codes "DISTRIBUTED") ≡ true)
before_tran tokens i m lo hi =
    let j = next_code tokens (i + 1) in
    elim (Bool-cases (kw_at tokens j (codes "DISTRIBUTED"))) [
      | inl e ↦
          let hi' = rw e at hi in
          elim (Bool-cases (ltb m j)) [
            | inl lt ↦
                inl (next_code-comment tokens (i + 1) m (omega (arith, lo)) (ground (arith, lt)))
            | inr ge ↦ elim (Bool-cases (m == j)) [
              | inl q ↦ let same : m ≡ j = ground (arith, q) in inr (rw same e)
              | inr q ↦ inl (next_code-comment tokens (j + 1) m (ground (arith, ge, q)) hi')
            ]
          ]
      | inr e ↦
          let hi' = rw e at hi in inl (next_code-comment tokens (i + 1) m (omega (arith, lo)) hi')
    ]

tran_place-lt : (tokens : List Token) (i : ℕ) → i < tran_place tokens i
tran_place-lt tokens i =
    let j = next_code tokens (i + 1) in
    let first = next_code-le tokens (i + 1) in
    let second = next_code-le tokens (j + 1) in ground (arith, first, second)

pub begin_tran_at-Begins :
    (tokens : List Token) (i k : ℕ) → begin_tran_at tokens i ≡ some k → Begins tokens i k
unfolding begin_tran_at
begin_tran_at-Begins tokens i k h = elim (Bool-cases (kw_at tokens i (codes "BEGIN"))) [
  | inr e ↦ let no = rw e at h in absurd cc
  | inl e ↦ elim (Bool-cases (tran_word_at tokens (tran_place tokens i))) [
    | inr f ↦ let no = rw (e, f) at h in absurd cc
    | inl f ↦
        let place : tran_place tokens i ≡ k = some_inj _ k (rw (e, f) at h) in
        rw (sym place) (record {
          begin = e;
          behind = tran_place-lt tokens i;
          tran = f;
          between = before_tran tokens i;
        })
  ]
]
