-- ===== src/Rules/Batches.antt =====
-- Batch separators: a GO on whose line no other token begins.
use dbopt.Base.{
  ◌==◌, ◌↔◌, refl, get_elem?, ℕ, ◌≤◌, ◌<◌, ◌≡◌, Bool, true, false, ◌&&◌, Bool-cases, ltb, leb, inl,
  inr, Option, none, some, List, [], ◌∷◌, zero, suc, length, arith,
}
use dbopt.Base.Bytes.{codes}
use dbopt.Tokens.{Token}
use dbopt.Rules.{
  is_keyword, holds_at, is_significant_at, prev_significant, next_significant, line_at, is_alone,
  is_batch_separator,
}
use dbopt.Rules.Significant.{
  Prev, Next, prev_significant-Prev, next_significant-Next, significant_beyond, get_elem?-beyond,
}

-- The lines of the tokens do not go back.
abbrev IsOrdered : List Token → Type 0
IsOrdered tokens = (j k : ℕ) → j ≤ k → k < length tokens → line_at tokens j ≤ line_at tokens k

-- The same as a test on neighbours.
abbrev pub lines_ordered : List Token → Bool
lines_ordered [] = true
lines_ordered (t ∷ []) = true
lines_ordered (t ∷ u ∷ ts) = leb t.line u.line && lines_ordered (u ∷ ts)

lines_ordered-IsOrdered : (tokens : List Token) → lines_ordered tokens ≡ true → IsOrdered tokens
lines_ordered-IsOrdered [] h j k le bound = absurd (omega arith)
lines_ordered-IsOrdered (t ∷ []) h zero zero le bound = omega arith
lines_ordered-IsOrdered (t ∷ []) h (suc j) zero le bound = absurd (omega arith)
lines_ordered-IsOrdered (t ∷ []) h j (suc k) le bound = absurd (omega arith)
lines_ordered-IsOrdered (t ∷ u ∷ ts) h zero zero le bound = omega arith
lines_ordered-IsOrdered (t ∷ u ∷ ts) h (suc j) zero le bound = absurd (omega arith)
lines_ordered-IsOrdered (t ∷ u ∷ ts) h zero (suc k) le bound =
    let later : u.line ≤ line_at (u ∷ ts) k =
      lines_ordered-IsOrdered (u ∷ ts) (ground (arith, h)) zero k (omega arith) (omega arith) in
    ground (arith, h, later)
lines_ordered-IsOrdered (t ∷ u ∷ ts) h (suc j) (suc k) le bound =
    lines_ordered-IsOrdered (u ∷ ts) (ground (arith, h)) j k (omega arith) (omega arith)

significant_bound :
    (tokens : List Token) (k : ℕ) → is_significant_at tokens k ≡ true → k < length tokens
significant_bound tokens k s = elim (Bool-cases (ltb k (length tokens))) [
  | inl e ↦ ground (arith, e)
  | inr e ↦
      let far : is_significant_at tokens k ≡ false =
        significant_beyond tokens k (ground (arith, e)) in
      absurd cc
]

before_alone :
    (tokens : List Token) (i j : ℕ) (o : Option ℕ)
    → IsOrdered tokens
    → i < length tokens
    → Prev tokens i o
    → is_alone tokens (line_at tokens i) o ≡ true
    → j < i
    → is_significant_at tokens j ≡ true
    → line_at tokens j < line_at tokens i
before_alone tokens i j none ordered bound p a below s =
    let no : is_significant_at tokens j ≡ false = p j below in absurd cc
before_alone tokens i j (some k) ordered bound p a below s = elim (Bool-cases (ltb k j)) [
  | inl e ↦
      let no : is_significant_at tokens j ≡ false = p.gap j (ground (arith, e)) below in absurd cc
  | inr e ↦
      let up : line_at tokens j ≤ line_at tokens k =
        ordered j k (ground (arith, e)) (omega (arith, p.before)) in
      let here : line_at tokens k ≤ line_at tokens i =
        ordered k i (omega (arith, p.before)) bound in
      ground (arith, a, up, here)
]

after_alone :
    (tokens : List Token) (i j : ℕ) (o : Option ℕ)
    → IsOrdered tokens
    → Next tokens i o
    → is_alone tokens (line_at tokens i) o ≡ true
    → i < j
    → is_significant_at tokens j ≡ true
    → line_at tokens i < line_at tokens j
after_alone tokens i j none ordered n a above s =
    let no : is_significant_at tokens j ≡ false = n j above in absurd cc
after_alone tokens i j (some k) ordered n a above s = elim (Bool-cases (ltb j k)) [
  | inl e ↦
      let no : is_significant_at tokens j ≡ false = n.gap j above (ground (arith, e)) in absurd cc
  | inr e ↦
      let up : line_at tokens k ≤ line_at tokens j =
        ordered k j (ground (arith, e)) (significant_bound tokens j s) in
      let here : line_at tokens i ≤ line_at tokens k =
        ordered i k (omega (arith, n.behind)) (significant_bound tokens k n.significant) in
      ground (arith, a, up, here)
]

separator_parts :
    (tokens : List Token) (i : ℕ)
    → is_batch_separator tokens i ≡ true
    → (is_alone tokens (line_at tokens i) (prev_significant tokens i) ≡ true)
      × (is_alone tokens (line_at tokens i) (next_significant tokens i) ≡ true)
unfolding is_batch_separator
separator_parts tokens i h = (ground (arith, h), ground (arith, h))

abbrev pub is_go_at : List Token → ℕ → Bool
is_go_at tokens i = holds_at (λ t. is_keyword t (codes "GO")) (get_elem? tokens i)

-- The token is the word GO, and no other token that is not a comment begins on its line.
pub record AloneOnLine (tokens : List Token) (i : ℕ) : Type 0 where
  pub go : is_go_at tokens i ≡ true
  pub before :
      (j : ℕ)
      → j < i
      → is_significant_at tokens j ≡ true
      → (line_at tokens j == line_at tokens i) ≡ false
  pub behind :
      (j : ℕ)
      → i < j
      → is_significant_at tokens j ≡ true
      → (line_at tokens j == line_at tokens i) ≡ false

go_bound : (tokens : List Token) (i : ℕ) → is_go_at tokens i ≡ true → i < length tokens
go_bound tokens i h = elim (Bool-cases (ltb i (length tokens))) [
  | inl e ↦ ground (arith, e)
  | inr e ↦
      let none_here = get_elem?-beyond tokens i (ground (arith, e)) in
      let no : is_go_at tokens i ≡ false = rw (is_go_at, none_here) refl in absurd cc
]

alone-AloneOnLine :
    (tokens : List Token) (i : ℕ)
    → lines_ordered tokens ≡ true
    → is_batch_separator tokens i ≡ true
    → AloneOnLine tokens i
unfolding is_batch_separator
alone-AloneOnLine tokens i lines sep =
    let ordered = lines_ordered-IsOrdered tokens lines in
    let parts = separator_parts tokens i sep in
    let go : is_go_at tokens i ≡ true = ground (arith, sep) in
    record {
      go = go;
      before = λ j below s.
          let lt =
            before_alone tokens i j (prev_significant tokens i) ordered (go_bound tokens i go)
              (prev_significant-Prev tokens i) parts.0 below s in
          ground (arith, lt);
      behind = λ j above s.
          let lt =
            after_alone tokens i j (next_significant tokens i) ordered
              (next_significant-Next tokens i) parts.1 above s in
          ground (arith, lt);
    }

Prev-is_alone :
    (tokens : List Token) (i : ℕ) (o : Option ℕ)
    → AloneOnLine tokens i
    → Prev tokens i o
    → is_alone tokens (line_at tokens i) o ≡ true
Prev-is_alone tokens i none a p = refl
Prev-is_alone tokens i (some k) a p =
    let other = a.before k p.before p.significant in rw (is_alone, other) refl

Next-is_alone :
    (tokens : List Token) (i : ℕ) (o : Option ℕ)
    → AloneOnLine tokens i
    → Next tokens i o
    → is_alone tokens (line_at tokens i) o ≡ true
Next-is_alone tokens i none a n = refl
Next-is_alone tokens i (some k) a n =
    let other = a.behind k n.behind n.significant in rw (is_alone, other) refl

AloneOnLine-separator :
    (tokens : List Token) (i : ℕ) → AloneOnLine tokens i → is_batch_separator tokens i ≡ true
unfolding is_batch_separator
AloneOnLine-separator tokens i a =
    rw
      (
        a.go,
        Prev-is_alone tokens i (prev_significant tokens i) a (prev_significant-Prev tokens i),
        Next-is_alone tokens i (next_significant tokens i) a (next_significant-Next tokens i),
      )
      refl

-- In tokens whose lines do not go back, a token is a batch separator exactly if it is the word GO and no
-- other token that is not a comment begins on the line on which it begins. Where a token ends is not
-- asked: a literal over several lines may end on the line of the separator.
pub is_batch_separator_iff :
    (tokens : List Token) (i : ℕ)
    → lines_ordered tokens ≡ true
    → (is_batch_separator tokens i ≡ true) ↔ AloneOnLine tokens i
is_batch_separator_iff tokens i lines =
    (alone-AloneOnLine tokens i lines, AloneOnLine-separator tokens i)
