-- ===== src/Rules/Transactions/Places.antt =====
-- The places of a range at which a test holds.
use dbopt.Base.{
  ℕ, zero, suc, ◌+◌, ◌-◌, ◌≤◌, ◌<◌, ◌≡◌, refl, ap, ◌∙◌, Bool, true, false, not, Bool-cases, inl,
  inr, ◌==◌, ltb, sym, List, [], ◌∷◌, if◌then◌else◌, length, arith,
}
use dbopt.Base.Text.{is_empty}
use dbopt.Tokens.{Token}
use dbopt.Rules.Transactions.{any_from}

module _ (p : ℕ → Bool) where
  -- Those among the `n` places from `i` on, in order.
  unfoldable pub places : ℕ → ℕ → List ℕ
  places i zero = []
  places i (suc n) = let later = places (i + 1) n in if p i then i ∷ later else later

  pub places-false : (i n m : ℕ) → is_empty (places i n) ≡ true → i ≤ m → m < i + n → p m ≡ false
  unfolding places
  places-false i zero m h lo hi = absurd (omega (arith, lo, hi))
  places-false i (suc n) m h lo hi = elim (Bool-cases (p i)) [
    | inl e ↦ let no = rw e at h in absurd cc
    | inr e ↦ elim (Bool-cases (i == m)) [
      | inl q ↦ let same : m ≡ i = ground (arith, q) in rw same e
      | inr q ↦
          let later = rw e at h in
          places-false (i + 1) n m later (ground (arith, lo, q)) (omega (arith, hi))
    ]
  ]

  pub any_from-places : (i n : ℕ) → any_from p i n ≡ not (is_empty (places i n))
  unfolding any_from places
  any_from-places i zero = refl
  any_from-places i (suc n) = elim (Bool-cases (p i)) [
    | inl e ↦ rw e
    | inr e ↦ rw e (any_from-places (i + 1) n)
  ]

  -- Places at which the test fails can be left out at the front.
  pub places-skip :
      (d i n : ℕ)
      → ((m : ℕ) → i ≤ m → m < i + d → p m ≡ false)
      → places i n ≡ places (i + d) (n - d)
  unfolding places
  places-skip zero i n h =
      let start : i ≡ i + 0 = omega arith in
      let count : n ≡ n - 0 = omega arith in ap (λ k. places k n) start ∙ ap (places (i + 0)) count
  places-skip (suc d) i zero h =
      let count : 0 ≡ 0 - suc d = omega arith in ap (places (i + suc d)) count
  places-skip (suc d) i (suc n) h =
      let here : p i ≡ false = h i (omega arith) (omega arith) in
      let start : i + 1 + d ≡ i + suc d = omega arith in
      let count : n - d ≡ suc n - suc d = omega arith in
      rw here (
        places-skip d (i + 1) n (λ m lo hi. h m (omega (arith, lo)) (omega (arith, hi)))
        ∙ ap (λ k. places k (n - d)) start
        ∙ ap (places (i + suc d)) count)

-- The places from `i` to the end of the tokens at which a test holds.
abbrev pub rest : List Token → (ℕ → Bool) → ℕ → List ℕ
rest tokens p i = places p i (length tokens - i)

pub rest-beyond :
    (tokens : List Token) (p : ℕ → Bool) (i : ℕ) → length tokens ≤ i → rest tokens p i ≡ []
unfolding places
rest-beyond tokens p i h =
    let none_left : length tokens - i ≡ 0 = omega (arith, h) in ap (places p i) none_left

pub rest-here :
    (tokens : List Token) (p : ℕ → Bool) (i : ℕ)
    → i < length tokens
    → rest tokens p i ≡ (if p i then i ∷ rest tokens p (i + 1) else rest tokens p (i + 1))
unfolding places
rest-here tokens p i h =
    let one : length tokens - i ≡ suc (length tokens - (i + 1)) = omega (arith, h) in
    ap (places p i) one

pub step_over :
    (tokens : List Token) (p : ℕ → Bool) (i : ℕ)
    → p i ≡ false
    → rest tokens p i ≡ rest tokens p (i + 1)
step_over tokens p i e = elim (Bool-cases (ltb i (length tokens))) [
  | inl lt ↦ rest-here tokens p i (ground (arith, lt)) ∙ rw e
  | inr ge ↦
      rest-beyond tokens p i (ground (arith, ge))
      ∙ sym (rest-beyond tokens p (i + 1) (ground (arith, ge)))
]

pub rest-skip :
    (tokens : List Token) (p : ℕ → Bool) (i k : ℕ)
    → i < k
    → ((m : ℕ) → i < m → m < suc k → p m ≡ false)
    → rest tokens p (i + 1) ≡ rest tokens p (k + 1)
rest-skip tokens p i k lt h =
    let start : i + 1 + (k - i) ≡ k + 1 = omega (arith, lt) in
    let count : length tokens - (i + 1) - (k - i) ≡ length tokens - (k + 1) = omega (arith, lt) in
    places-skip p (k - i) (i + 1) (length tokens - (i + 1))
      (λ m lo hi. h m (omega (arith, lo)) (omega (arith, hi, start)))
    ∙ ap (λ s. places p s (length tokens - (i + 1) - (k - i))) start
    ∙ ap (places p (k + 1)) count
