-- ===== src/Rules/Transactions/Quiet.antt =====
-- Places at which no transaction begins or ends, among them those that a BEGIN TRAN goes over.
use dbopt.Base.{
  ℕ, suc, ◌<◌, ◌≡◌, refl, ap, ◌∙◌, true, false, Bool-cases, inl, inr, ◌==◌, List, ltb, length,
  arith,
}
use dbopt.Base.Bytes.{Bytes, codes, eq_ignore_case}
use dbopt.Tokens.{Token}
use dbopt.Rules.Significant.{get_elem?-beyond}
use dbopt.Rules.Transactions.{
  kw_at, comment_at, tran_word_at, begin_tran_at, is_commit_at, is_rollback_at,
}
use dbopt.Rules.Transactions.Checks.{begins_at, is_close_at}
use dbopt.Rules.Transactions.Begins.{Begins, comment-kw_at, other-kw_at}

-- No transaction begins or ends at this place.
pub record Quiet (tokens : List Token) (m : ℕ) : Type 0 where
  pub begin : kw_at tokens m (codes "BEGIN") ≡ false
  pub commit : kw_at tokens m (codes "COMMIT") ≡ false
  pub rollback : kw_at tokens m (codes "ROLLBACK") ≡ false

module _ (tokens : List Token) (m : ℕ) where
  comment-Quiet : comment_at tokens m ≡ true → Quiet tokens m
  comment-Quiet h = record {
    begin = comment-kw_at tokens m (codes "BEGIN") h;
    commit = comment-kw_at tokens m (codes "COMMIT") h;
    rollback = comment-kw_at tokens m (codes "ROLLBACK") h;
  }

  keyword-Quiet :
      (kw : Bytes)
      → kw_at tokens m kw ≡ true
      → eq_ignore_case kw (codes "BEGIN") ≡ false
      → eq_ignore_case kw (codes "COMMIT") ≡ false
      → eq_ignore_case kw (codes "ROLLBACK") ≡ false
      → Quiet tokens m
  keyword-Quiet kw h b c r = record {
    begin = other-kw_at tokens m kw (codes "BEGIN") h b;
    commit = other-kw_at tokens m kw (codes "COMMIT") h c;
    rollback = other-kw_at tokens m kw (codes "ROLLBACK") h r;
  }

  tran-Quiet : tran_word_at tokens m ≡ true → Quiet tokens m
  unfolding eq_ignore_case
  tran-Quiet h = elim (Bool-cases (kw_at tokens m (codes "TRAN"))) [
    | inl e ↦ keyword-Quiet (codes "TRAN") e refl refl refl
    | inr e ↦ keyword-Quiet (codes "TRANSACTION") (ground (arith, h, e)) refl refl refl
  ]

  distributed-Quiet : kw_at tokens m (codes "DISTRIBUTED") ≡ true → Quiet tokens m
  unfolding eq_ignore_case
  distributed-Quiet h = keyword-Quiet (codes "DISTRIBUTED") h refl refl refl

  pub Quiet-begins_at : Quiet tokens m → begins_at tokens m ≡ false
  unfolding begin_tran_at
  Quiet-begins_at q = rw (q.begin, begin_tran_at, begins_at)

  pub Quiet-is_close_at : Quiet tokens m → is_close_at tokens m ≡ false
  unfolding is_close_at is_commit_at is_rollback_at
  Quiet-is_close_at q = rw (q.commit, q.rollback)

pub Begins-Quiet :
    (tokens : List Token) (i k m : ℕ) → Begins tokens i k → i < m → m < suc k → Quiet tokens m
Begins-Quiet tokens i k m b lo hi = elim (Bool-cases (m == k)) [
  | inl q ↦
      let same : m ≡ k = ground (arith, q) in
      tran-Quiet tokens m (ap (tran_word_at tokens) same ∙ b.tran)
  | inr q ↦ elim (b.between m lo (ground (arith, hi, q))) [
    | inl c ↦ comment-Quiet tokens m c
    | inr d ↦ distributed-Quiet tokens m d
  ]
]

pub kw_at-bound :
    (tokens : List Token) (m : ℕ) (kw : Bytes) → kw_at tokens m kw ≡ true → m < length tokens
unfolding kw_at
kw_at-bound tokens m kw h = elim (Bool-cases (ltb m (length tokens))) [
  | inl e ↦ ground (arith, e)
  | inr e ↦
      let beyond = get_elem?-beyond tokens m (ground (arith, e)) in
      let no = rw beyond at h in absurd cc
]

-- A BEGIN is neither a COMMIT nor a ROLLBACK.
pub begin-is_close_at :
    (tokens : List Token) (i : ℕ)
    → kw_at tokens i (codes "BEGIN") ≡ true
    → is_close_at tokens i ≡ false
unfolding is_close_at is_commit_at is_rollback_at eq_ignore_case
begin-is_close_at tokens i h =
    let commit = other-kw_at tokens i (codes "BEGIN") (codes "COMMIT") h refl in
    let rollback = other-kw_at tokens i (codes "BEGIN") (codes "ROLLBACK") h refl in
    rw (commit, rollback)
