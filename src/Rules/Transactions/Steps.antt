-- ===== src/Rules/Transactions/Steps.antt =====
-- Four more loops of crates/analyzer-core/src/rules/transactions.rs end: two numbers of rounds that are
-- enough give the same.
use dbopt.Base.{
  ℕ, zero, suc, ◌+◌, ◌≤◌, ◌≡◌, refl, ap, ◌∙◌, sym, false, Bool-cases, Option-cases, inl, inr, List,
  [], ◌∷◌, length, if◌then◌else◌, get_elem?, arith,
}
use dbopt.Base.Bytes.{Bytes, codes}
use dbopt.Tokens.{Token}
use dbopt.Rules.{holds_at}
use dbopt.Rules.Significant.{get_elem?-beyond}
use dbopt.Rules.Transactions.{kw_at, is_commit_at, is_rollback_at, next_code}
use dbopt.Rules.Transactions.Statements.{is_passed_option, find_option, shared_on}
use dbopt.Rules.Transactions.Checks.{
  Counts, is_unowned_close, without_begin_at, without_begin_from, count_from,
}
use dbopt.Rules.Transactions.Begins.{next_code-le}
use dbopt.Rules.Transactions.Quiet.{kw_at-bound}
use dbopt.Rules.Transactions.Counted.{count_from-Counted}

module _ (tokens : List Token) where
  pub count_enough :
      (a b i : ℕ) (st : Counts)
      → length tokens ≤ i + a
      → length tokens ≤ i + b
      → count_from tokens st i a ≡ count_from tokens st i b
  count_enough a b i st h k =
      count_from-Counted tokens a i st h ∙ sym (count_from-Counted tokens b i st k)

  kw_beyond : (i : ℕ) (kw : Bytes) → length tokens ≤ i → kw_at tokens i kw ≡ false
  kw_beyond i kw h = elim (Bool-cases (kw_at tokens i kw)) [
    | inl e ↦ let bound = kw_at-bound tokens i kw e in absurd (omega (arith, h, bound))
    | inr e ↦ e
  ]

  unowned_beyond :
      (savepoints : List Bytes) (i : ℕ)
      → length tokens ≤ i
      → is_unowned_close tokens savepoints i ≡ false
  unfolding is_unowned_close is_commit_at is_rollback_at
  unowned_beyond savepoints i h =
      rw (kw_beyond i (codes "COMMIT") h, kw_beyond i (codes "ROLLBACK") h) refl

  without_begin-beyond :
      (savepoints : List Bytes) (left i : ℕ)
      → length tokens ≤ i
      → without_begin_from tokens savepoints i left ≡ []
  unfolding without_begin_from
  without_begin-beyond savepoints zero i h = refl
  without_begin-beyond savepoints (suc left) i h =
      rw (unowned_beyond savepoints i h)
        (without_begin-beyond savepoints left (i + 1) (omega (arith, h)))

  pub without_begin_enough :
      (savepoints : List Bytes) (a b i : ℕ)
      → length tokens ≤ i + a
      → length tokens ≤ i + b
      → without_begin_from tokens savepoints i a ≡ without_begin_from tokens savepoints i b
  unfolding without_begin_from
  without_begin_enough savepoints zero b i h k =
      sym (without_begin-beyond savepoints b i (omega (arith, h)))
  without_begin_enough savepoints (suc a) zero i h k =
      without_begin-beyond savepoints (suc a) i (omega (arith, k))
  without_begin_enough savepoints (suc a) (suc b) i h k =
      ap
        (λ later.
          if is_unowned_close tokens savepoints i then without_begin_at tokens i ∷ [] else later)
        (without_begin_enough savepoints a b (i + 1) (omega (arith, h)) (omega (arith, k)))

  option-beyond : (left j : ℕ) → length tokens ≤ j → find_option tokens j left ≡ j
  unfolding find_option
  option-beyond zero j h = refl
  option-beyond (suc left) j h = rw (get_elem?-beyond tokens j h) refl

  pub option_enough :
      (a b j : ℕ)
      → length tokens ≤ j + a
      → length tokens ≤ j + b
      → find_option tokens j a ≡ find_option tokens j b
  unfolding find_option
  option_enough zero b j h k = sym (option-beyond b j (omega (arith, h)))
  option_enough (suc a) zero j h k = option-beyond (suc a) j (omega (arith, k))
  option_enough (suc a) (suc b) j h k =
      let n = next_code tokens (j + 1) in
      let far = next_code-le tokens (j + 1) in
      ap (λ later. if holds_at is_passed_option (get_elem? tokens j) then later else j)
        (option_enough a b n (omega (arith, h, far)) (omega (arith, k, far)))

  shared-beyond : (left m : ℕ) → length tokens ≤ m → shared_on tokens m left ≡ false
  unfolding shared_on
  shared-beyond zero m h = refl
  shared-beyond (suc left) m h = rw (shared_on, get_elem?-beyond tokens m h) refl

  pub shared_enough :
      (a b m : ℕ)
      → length tokens ≤ m + a
      → length tokens ≤ m + b
      → shared_on tokens m a ≡ shared_on tokens m b
  unfolding shared_on
  shared_enough zero b m h k = sym (shared-beyond b m (omega (arith, h)))
  shared_enough (suc a) zero m h k = shared-beyond (suc a) m (omega (arith, k))
  shared_enough (suc a) (suc b) m h k =
      let later = shared_enough a b (m + 1) (omega (arith, h)) (omega (arith, k)) in
      elim (Option-cases (get_elem? tokens m)) [
        | inl e ↦ rw (shared_on, e) refl
        | inr (t, e) ↦ rw (shared_on, e, later) refl
      ]
