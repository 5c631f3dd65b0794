-- ===== src/Rules/Transactions/Counted.antt =====
-- The loop of `begin_tran_without_commit` counts all places, though it jumps over those of a BEGIN TRAN.
use dbopt.Base.{
  ℕ, zero, suc, ◌+◌, ◌≤◌, ◌<◌, ◌≡◌, refl, ap, ◌∙◌, sym, true, false, Bool-cases, Option-cases, inl,
  inr, Option, none, some, List, [], ◌∷◌, if◌then◌else◌, length, arith,
}
use dbopt.Base.Bytes.{codes}
use dbopt.Tokens.{Token}
use dbopt.Rules.Transactions.{kw_at, begin_tran_at, is_commit_at, is_rollback_at}
use dbopt.Rules.Transactions.Checks.{Counts, begins_at, is_close_at, or_first, count_from}
use dbopt.Rules.Transactions.Begins.{begin_tran_at-Begins}
use dbopt.Rules.Transactions.Quiet.{
  Quiet-begins_at, Quiet-is_close_at, Begins-Quiet, kw_at-bound, begin-is_close_at,
}
use dbopt.Rules.Transactions.Places.{rest, rest-beyond, rest-here, step_over, rest-skip}

abbrev pub or_head : Option ℕ → List ℕ → Option ℕ
or_head none [] = none
or_head none (b ∷ bs) = some b
or_head (some b) bs = some b

-- What the loop adds to the counts from a place on.
abbrev pub counted : Counts → List ℕ → List ℕ → Counts
counted st begins closes = record {
  first_begin = or_head st.first_begin begins;
  begin_count = st.begin_count + length begins;
  close_count = st.close_count + length closes;
}

or_head-nil : (first : Option ℕ) → first ≡ or_head first []
or_head-nil none = refl
or_head-nil (some b) = refl

or_head-cons :
    (first : Option ℕ) (i : ℕ) (begins : List ℕ)
    → or_head (or_first first i) begins ≡ or_head first (i ∷ begins)
or_head-cons none i begins = refl
or_head-cons (some b) i begins = refl

counted-nil : (st : Counts) → st ≡ counted st [] []
counted-nil st =
    let first : st.first_begin ≡ or_head st.first_begin [] = or_head-nil st.first_begin in
    let begins : st.begin_count ≡ st.begin_count + 0 = omega arith in
    let closes : st.close_count ≡ st.close_count + 0 = omega arith in
    λ i. record { first_begin = first i; begin_count = begins i; close_count = closes i }

counted-begin :
    (st : Counts) (i : ℕ) (begins closes : List ℕ)
    → counted
        (record st { first_begin = or_first st.first_begin i; begin_count = st.begin_count + 1 })
        begins
        closes
      ≡ counted st (i ∷ begins) closes
counted-begin st i begins closes =
    let first = or_head-cons st.first_begin i begins in
    let more : st.begin_count + 1 + length begins ≡ st.begin_count + suc (length begins) =
      omega arith in
    λ j. record {
      first_begin = first j;
      begin_count = more j;
      close_count = st.close_count + length closes;
    }

counted-close :
    (st : Counts) (i : ℕ) (begins closes : List ℕ)
    → counted (record st { close_count = st.close_count + 1 }) begins closes
      ≡ counted st begins (i ∷ closes)
counted-close st i begins closes =
    let more : st.close_count + 1 + length closes ≡ st.close_count + suc (length closes) =
      omega arith in
    λ j. record {
      first_begin = or_head st.first_begin begins;
      begin_count = st.begin_count + length begins;
      close_count = more j;
    }

module _ (tokens : List Token) where
  abbrev pub Counted : Counts → ℕ → ℕ → Type 0
  Counted st i left =
      count_from tokens st i left
      ≡ counted st (rest tokens (begins_at tokens) i) (rest tokens (is_close_at tokens) i)

  -- The places at which a transaction begins, from a BEGIN on.
  begins-jump :
      (i k : ℕ)
      → begin_tran_at tokens i ≡ some k
      → rest tokens (begins_at tokens) i ≡ i ∷ rest tokens (begins_at tokens) (k + 1)
  begins-jump i k e =
      let b = begin_tran_at-Begins tokens i k e in
      let here : begins_at tokens i ≡ true = rw (e, begins_at) refl in
      let skip =
        rest-skip tokens (begins_at tokens) i k b.behind
          λ m lo hi. Quiet-begins_at tokens m (Begins-Quiet tokens i k m b lo hi) in
      rest-here tokens (begins_at tokens) i (kw_at-bound tokens i (codes "BEGIN") b.begin)
      ∙ rw here (ap (◌∷◌ i) skip)

  closes-jump :
      (i k : ℕ)
      → begin_tran_at tokens i ≡ some k
      → rest tokens (is_close_at tokens) i ≡ rest tokens (is_close_at tokens) (k + 1)
  closes-jump i k e =
      let b = begin_tran_at-Begins tokens i k e in
      let here = begin-is_close_at tokens i b.begin in
      let skip =
        rest-skip tokens (is_close_at tokens) i k b.behind
          λ m lo hi. Quiet-is_close_at tokens m (Begins-Quiet tokens i k m b lo hi) in
      rest-here tokens (is_close_at tokens) i (kw_at-bound tokens i (codes "BEGIN") b.begin)
      ∙ rw here skip

  is_close_at-bound : (i : ℕ) → is_close_at tokens i ≡ true → i < length tokens
  unfolding is_close_at
  is_close_at-bound i e = elim (Bool-cases (kw_at tokens i (codes "COMMIT"))) [
    | inl c ↦ kw_at-bound tokens i (codes "COMMIT") c
    | inr c ↦ elim (Bool-cases (kw_at tokens i (codes "ROLLBACK"))) [
      | inl r ↦ kw_at-bound tokens i (codes "ROLLBACK") r
      | inr r ↦
          let no : is_close_at tokens i ≡ false =
            rw (is_close_at, is_commit_at, is_rollback_at, c, r) refl in
          absurd cc
    ]
  ]

  closes-same :
      (i : ℕ)
      → is_close_at tokens i ≡ false
      → rest tokens (is_close_at tokens) i ≡ rest tokens (is_close_at tokens) (i + 1)
  closes-same i e = step_over tokens (is_close_at tokens) i e

  begins-step :
      (i : ℕ)
      → begin_tran_at tokens i ≡ none
      → rest tokens (begins_at tokens) i ≡ rest tokens (begins_at tokens) (i + 1)
  begins-step i e =
      let here : begins_at tokens i ≡ false = rw (e, begins_at) refl in
      step_over tokens (begins_at tokens) i here

  count_from-zero : (st : Counts) (i : ℕ) → count_from tokens st i 0 ≡ st
  unfolding count_from
  count_from-zero st i = refl

  count_from-none :
      (st : Counts) (i left : ℕ)
      → begin_tran_at tokens i ≡ none
      → count_from tokens st i (suc left)
        ≡ count_from tokens
            (if is_close_at tokens i then record st { close_count = st.close_count + 1 } else st)
            (i + 1)
            left
  unfolding count_from
  count_from-none st i left e = rw (count_from, e) refl

  count_from-some :
      (st : Counts) (i left k : ℕ)
      → begin_tran_at tokens i ≡ some k
      → count_from tokens st i (suc left)
        ≡ count_from tokens
            (record st {
              first_begin = or_first st.first_begin i;
              begin_count = st.begin_count + 1;
            })
            (k + 1)
            left
  unfolding count_from
  count_from-some st i left k e = rw (count_from, e) refl

  closes-step :
      (st : Counts) (begins : List ℕ) (i : ℕ)
      → counted
          (if is_close_at tokens i then record st { close_count = st.close_count + 1 } else st)
          begins
          (rest tokens (is_close_at tokens) (i + 1))
        ≡ counted st begins (rest tokens (is_close_at tokens) i)
  closes-step st begins i = elim (Bool-cases (is_close_at tokens i)) [
    | inl e ↦
        let lt = is_close_at-bound i e in
        let later = rest tokens (is_close_at tokens) (i + 1) in
        let here : rest tokens (is_close_at tokens) i ≡ i ∷ later =
          rest-here tokens (is_close_at tokens) i lt ∙ rw e in
        rw e (counted-close st i begins later ∙ ap (counted st begins) (sym here))
    | inr e ↦ rw e (ap (counted st begins) (sym (closes-same i e)))
  ]

  pub count_from-Counted : (left i : ℕ) (st : Counts) → length tokens ≤ i + left → Counted st i left
  count_from-Counted zero i st h =
      let no_begin = rest-beyond tokens (begins_at tokens) i (omega (arith, h)) in
      let no_close = rest-beyond tokens (is_close_at tokens) i (omega (arith, h)) in
      count_from-zero st i ∙ rw (no_begin, no_close) (counted-nil st)
  count_from-Counted (suc left) i st h = elim (Option-cases (begin_tran_at tokens i)) [
    | inl e ↦
        let begins = rest tokens (begins_at tokens) (i + 1) in
        count_from-none st i left e
        ∙ count_from-Counted left (i + 1) _ (omega (arith, h))
        ∙ closes-step st begins i
        ∙ ap (λ l. counted st l (rest tokens (is_close_at tokens) i)) (sym (begins-step i e))
    | inr (k, e) ↦
        let b = begin_tran_at-Begins tokens i k e in
        let begins = rest tokens (begins_at tokens) (k + 1) in
        let closes = rest tokens (is_close_at tokens) (k + 1) in
        count_from-some st i left k e
        ∙ count_from-Counted left (k + 1) _ (omega (arith, h, b.behind))
        ∙ counted-begin st i begins closes
        ∙ ap (λ l. counted st l closes) (sym (begins-jump i k e))
        ∙ ap (counted st (rest tokens (begins_at tokens) i)) (sym (closes-jump i k e))
  ]
