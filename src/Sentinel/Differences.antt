-- ===== src/Sentinel/Differences.antt =====
-- The loop that the pollers of cumulative counters share: over the current counters, against the prior
-- ones of the same key, with a row for each key that has one.
use dbopt.Base.{
  ℕ, ◌+◌, ◌-◌, ◌≡◌, refl, ap, subst, ◌∙◌, Bool, true, false, Bool-cases, Option, none, some, List,
  [], ◌∷◌, ◌++◌, if◌then◌else◌, inl, inr, arith,
}
use dbopt.Sentinel.Keyed.{get_or, has_key, distinct, get_or-here, get_or-later, get_or-nil}

module _ {R : Type 0} where
  -- A row is kept unless its insert fails.
  abbrev pub inserted_then : (R → Bool) → Option R → List R → List R
  inserted_then insert_fails none rows = rows
  inserted_then insert_fails (some row) rows = if insert_fails row then rows else row ∷ rows

  abbrev pub amount_of : (R → ℕ) → Option R → ℕ
  amount_of amount none = 0
  amount_of amount (some row) = amount row

  -- An amount of the rows, together.
  abbrev pub amounts : (R → ℕ) → List R → ℕ
  amounts amount [] = 0
  amounts amount (row ∷ rows) = amount row + amounts amount rows

  pub amounts-append :
      (amount : R → ℕ) (xs ys : List R)
      → amounts amount (xs ++ ys) ≡ amounts amount xs + amounts amount ys
  amounts-append amount [] ys = omega arith
  amounts-append amount (x ∷ xs) ys = omega (arith, amounts-append amount xs ys)

  amounts-inserted_then :
      (amount : R → ℕ) (o : Option R) (rows : List R)
      → amounts amount (inserted_then (λ row. false) o rows)
        ≡ amount_of amount o + amounts amount rows
  amounts-inserted_then amount none rows = omega arith
  amounts-inserted_then amount (some row) rows = refl

module _ {K C R : Type 0} (eq_key : K → K → Bool) (none_counted : C)
    (row : K → C → C → Option R) where
  -- The rows that the loop inserts, in the order in which it goes through the map; a key without
  -- prior counters is counted from none.
  unfoldable pub difference_rows : (R → Bool) → List (K × C) → List (K × C) → List R
  unfolding get_or
  difference_rows insert_fails prior [] = []
  difference_rows insert_fails prior ((k, cur) ∷ current) =
      inserted_then insert_fails (row k cur (get_or eq_key none_counted k prior))
        (difference_rows insert_fails prior current)

  -- Where the row of a key has as its amount what an operation is counted more often now.
  module _ (same : (j k : K) → eq_key j k ≡ true → j ≡ k) (k : K) (amount : R → ℕ)
      (operations : C → ℕ)
      (row_amount : (j : K) (cur prior : C)
        → amount_of amount (row j cur prior)
          ≡ (if eq_key j k then operations cur - operations prior else 0)) where
    absent-amounts :
        (prior m : List (K × C))
        → has_key eq_key k m ≡ false
        → amounts amount (difference_rows (λ r. false) prior m) ≡ 0
    unfolding difference_rows
    absent-amounts prior [] h = refl
    absent-amounts prior ((j, cur) ∷ m) h =
        let other : eq_key j k ≡ false = ground (arith, h) in
        let p = get_or eq_key none_counted j prior in
        let rest = difference_rows (λ r. false) prior m in
        let nothing : amount_of amount (row j cur p) ≡ 0 =
          row_amount j cur p ∙ ap (λ b. if b then operations cur - operations p else 0) other in
        amounts-inserted_then amount (row j cur p) rest
        ∙ omega (arith, nothing, absent-amounts prior m (ground (arith, h)))

    -- The rows hold what is counted more often, and nothing if it is counted less often.
    pub difference_rows-amounts :
        (prior m : List (K × C))
        → operations none_counted ≡ 0
        → distinct eq_key m ≡ true
        → amounts amount (difference_rows (λ r. false) prior m)
          ≡ operations (get_or eq_key none_counted k m)
            - operations (get_or eq_key none_counted k prior)
    unfolding difference_rows
    difference_rows-amounts prior [] z h =
        let nothing = ap operations (get_or-nil eq_key none_counted k) in omega (arith, z, nothing)
    difference_rows-amounts prior ((j, cur) ∷ m) z h =
        let p = get_or eq_key none_counted j prior in
        let rest = difference_rows (λ r. false) prior m in
        amounts-inserted_then amount (row j cur p) rest ∙ elim (Bool-cases (eq_key j k)) [
          | inl e ↦
              let equal : j ≡ k = same j k e in
              let none_behind : amounts amount rest ≡ 0 =
                absent-amounts prior m
                  (subst (λ x. has_key eq_key x m ≡ false) equal (ground (arith, h))) in
              let here = ap operations (get_or-here eq_key none_counted k j cur m e) in
              let before = ap (λ x. operations (get_or eq_key none_counted x prior)) equal in
              let this : amount_of amount (row j cur p) ≡ operations cur - operations p =
                row_amount j cur p ∙ ap (λ b. if b then operations cur - operations p else 0) e in
              omega (arith, this, none_behind, here, before)
          | inr e ↦
              let later = ap operations (get_or-later eq_key none_counted k j cur m e) in
              let more = difference_rows-amounts prior m z (ground (arith, h)) in
              let this : amount_of amount (row j cur p) ≡ 0 =
                row_amount j cur p ∙ ap (λ b. if b then operations cur - operations p else 0) e in
              omega (arith, this, later, more)
        ]
