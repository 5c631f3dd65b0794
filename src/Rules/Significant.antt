-- ===== src/Rules/Significant.antt =====
-- The neighbours of a token that are not comments.
use dbopt.Base.{
  ℕ, zero, suc, ◌+◌, ◌-◌, ◌≤◌, ◌<◌, ◌≡◌, refl, true, false, Bool-cases, ◌==◌, inl, inr, Option,
  none, some, List, [], ◌∷◌, get_elem?, length, arith,
}
use dbopt.Tokens.{Token}
use dbopt.Rules.{is_significant_at, prev_significant, next_from, next_significant}

-- The place is the last one before `i` that holds a token that is not a comment.
pub record LastBefore (tokens : List Token) (i k : ℕ) : Type 0 where
  pub before : k < i
  pub significant : is_significant_at tokens k ≡ true
  pub gap : (j : ℕ) → k < j → j < i → is_significant_at tokens j ≡ false

abbrev pub Prev : List Token → ℕ → Option ℕ → Type 0
Prev tokens i none = (j : ℕ) → j < i → is_significant_at tokens j ≡ false
Prev tokens i (some k) = LastBefore tokens i k

up_to :
    (tokens : List Token) (i j : ℕ)
    → is_significant_at tokens i ≡ false
    → (j < i → is_significant_at tokens j ≡ false)
    → j < suc i
    → is_significant_at tokens j ≡ false
up_to tokens i j e h below = elim (Bool-cases (j == i)) [
  | inl q ↦ let same : j ≡ i = ground (arith, q) in rw same e
  | inr q ↦ h (ground (arith, q))
]

Prev-suc :
    (tokens : List Token) (i : ℕ) (o : Option ℕ)
    → is_significant_at tokens i ≡ false
    → Prev tokens i o
    → Prev tokens (suc i) o
Prev-suc tokens i none e h = λ j below. up_to tokens i j e (h j) below
Prev-suc tokens i (some k) e h = record {
  before = omega (arith, h.before);
  significant = h.significant;
  gap = λ j above below. up_to tokens i j e (h.gap j above) below;
}

-- `prev_significant` finds the last token before a place that is not a comment, and nothing exactly if
-- all are comments.
pub prev_significant-Prev :
    (tokens : List Token) (i : ℕ) → Prev tokens i (prev_significant tokens i)
unfolding prev_significant
prev_significant-Prev tokens zero = λ j h. absurd (omega arith)
prev_significant-Prev tokens (suc k) = elim (Bool-cases (is_significant_at tokens k)) [
  | inl e ↦
      rw e (record { before = omega arith; significant = e; gap = λ j a b. absurd (omega arith) })
  | inr e ↦ rw e (Prev-suc tokens k (prev_significant tokens k) e (prev_significant-Prev tokens k))
]

-- The place is the first one behind `i` that holds a token that is not a comment.
pub record FirstAfter (tokens : List Token) (i k : ℕ) : Type 0 where
  pub behind : i < k
  pub significant : is_significant_at tokens k ≡ true
  pub gap : (j : ℕ) → i < j → j < k → is_significant_at tokens j ≡ false

abbrev pub Next : List Token → ℕ → Option ℕ → Type 0
Next tokens i none = (j : ℕ) → i < j → is_significant_at tokens j ≡ false
Next tokens i (some k) = FirstAfter tokens i k

pub get_elem?-beyond : (tokens : List Token) (n : ℕ) → length tokens ≤ n → get_elem? tokens n ≡ none
get_elem?-beyond [] n h = refl
get_elem?-beyond (t ∷ ts) zero h = absurd (omega arith)
get_elem?-beyond (t ∷ ts) (suc n) h = get_elem?-beyond ts n (omega arith)

pub significant_beyond :
    (tokens : List Token) (n : ℕ) → length tokens ≤ n → is_significant_at tokens n ≡ false
unfolding is_significant_at
significant_beyond tokens n h = rw (get_elem?-beyond tokens n h)

down_to :
    (tokens : List Token) (i j : ℕ)
    → is_significant_at tokens (i + 1) ≡ false
    → (i + 1 < j → is_significant_at tokens j ≡ false)
    → i < j
    → is_significant_at tokens j ≡ false
down_to tokens i j e h above = elim (Bool-cases (j == i + 1)) [
  | inl q ↦ let same : j ≡ i + 1 = ground (arith, q) in rw same e
  | inr q ↦ h (ground (arith, q))
]

Next-back :
    (tokens : List Token) (i : ℕ) (o : Option ℕ)
    → is_significant_at tokens (i + 1) ≡ false
    → Next tokens (i + 1) o
    → Next tokens i o
Next-back tokens i none e h = λ j above. down_to tokens i j e (h j) above
Next-back tokens i (some k) e h = record {
  behind = omega (arith, h.behind);
  significant = h.significant;
  gap = λ j above below. down_to tokens i j e (λ far. h.gap j far below) above;
}

next_from-Next :
    (left : ℕ) (tokens : List Token) (i : ℕ)
    → length tokens ≤ i + 1 + left
    → Next tokens i (next_from tokens (i + 1) left)
unfolding next_from
next_from-Next zero tokens i h = λ j above. significant_beyond tokens j (omega arith)
next_from-Next (suc left) tokens i h = elim (Bool-cases (is_significant_at tokens (i + 1))) [
  | inl e ↦
      rw e (record { behind = omega arith; significant = e; gap = λ j a b. absurd (omega arith) })
  | inr e ↦ rw e (
      Next-back tokens i (next_from tokens (i + 1 + 1) left) e
        (next_from-Next left tokens (i + 1) (omega arith)))
]

-- `next_significant` finds the first token behind a place that is not a comment, and nothing exactly
-- if all are comments.
pub next_significant-Next :
    (tokens : List Token) (i : ℕ) → Next tokens i (next_significant tokens i)
unfolding next_significant
next_significant-Next tokens i = next_from-Next (length tokens - (i + 1)) tokens i (omega arith)

-- On both sides of a place the nearest token that is not a comment is found, the last one before it by
-- `prev_significant` and the first one behind it by `next_significant`, and nothing exactly if all
-- tokens on that side are comments.
pub significant-Neighbours :
    (tokens : List Token) (i : ℕ)
    → Prev tokens i (prev_significant tokens i) × Next tokens i (next_significant tokens i)
significant-Neighbours tokens i = (prev_significant-Prev tokens i, next_significant-Next tokens i)
