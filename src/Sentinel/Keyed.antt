-- ===== src/Sentinel/Keyed.antt =====
-- The maps of the pollers, `HashMap` of the standard library, as association lists with each key once;
-- and the columns of a reply, which may hold no value.
use dbopt.Base.{
  ℕ, ◌≡◌, refl, sym, ap, subst, ◌∙◌, Bool, true, false, not, ◌&&◌, Bool-cases, Option, none, some,
  List, [], ◌∷◌, any, if◌then◌else◌, inl, inr, arith,
}
use dbopt.Base.Bytes.{Bytes}

-- `unwrap_or("")` and `unwrap_or(0)`
abbrev pub or_empty : Option Bytes → Bytes
or_empty none = []
or_empty (some s) = s

abbrev pub or_zero : Option ℕ → ℕ
or_zero none = 0
or_zero (some n) = n

module _ {K : Type 0} (eq_key : K → K → Bool) where
  -- Two keys of which only one is a third one.
  apart :
      (same : (j k : K) → eq_key j k ≡ true → j ≡ k) (i j k : K)
      → eq_key i j ≡ false
      → eq_key i k ≡ true
      → eq_key j k ≡ false
  apart same i j k s e = elim (Bool-cases (eq_key j k)) [
    | inl t ↦
        let both : eq_key i j ≡ true = subst (λ x. eq_key i x ≡ true) (sym (same j k t)) e in
        absurd cc
    | inr t ↦ t
  ]

module _ {K V : Type 0} (eq_key : K → K → Bool) where
  -- HashMap::get
  unfoldable pub get : K → List (K × V) → Option V
  get k [] = none
  get k ((j, v) ∷ m) = let later = get k m in if eq_key j k then some v else later

  -- `get(k).copied().unwrap_or(d)`
  unfoldable pub get_or : V → K → List (K × V) → V
  unfolding get
  get_or d k m = elim (get k m) [ none ↦ d | some v ↦ v ]

  -- HashMap::insert
  unfoldable pub insert : K → V → List (K × V) → List (K × V)
  insert k v [] = (k, v) ∷ []
  insert k v ((j, w) ∷ m) =
      let rest = (j, w) ∷ insert k v m in if eq_key j k then (k, v) ∷ m else rest

  abbrev pub has_key : K → List (K × V) → Bool
  has_key k m = any (λ e. eq_key e.0 k) m

  abbrev pub distinct : List (K × V) → Bool
  distinct [] = true
  distinct ((k, c) ∷ m) = not (has_key k m) && distinct m

  pub get_or-here :
      (d : V) (k j : K) (c : V) (m : List (K × V)) → eq_key j k ≡ true → get_or d k ((j, c) ∷ m) ≡ c
  unfolding get_or
  get_or-here d k j c m e = rw (get_or, e)

  pub get_or-later :
      (d : V) (k j : K) (c : V) (m : List (K × V))
      → eq_key j k ≡ false
      → get_or d k ((j, c) ∷ m) ≡ get_or d k m
  unfolding get_or
  get_or-later d k j c m e = rw (get_or, e)

  pub get_or-nil : (d : V) (k : K) → get_or d k [] ≡ d
  unfolding get_or
  get_or-nil d k = refl

  -- Where the test is that of equality.
  module _ (same : (j k : K) → eq_key j k ≡ true → j ≡ k)
      (reflexive : (k : K) → eq_key k k ≡ true) where
    -- What is found behind an insertion.
    pub get_or-insert :
        (d : V) (k j : K) (c : V) (m : List (K × V))
        → get_or d k (insert j c m) ≡ (if eq_key j k then c else get_or d k m)
    unfolding insert
    get_or-insert d k j c [] = elim (Bool-cases (eq_key j k)) [
      | inl e ↦ rw e (get_or-here d k j c [] e)
      | inr e ↦ rw e (get_or-later d k j c [] e)
    ]
    get_or-insert d k j c ((i, w) ∷ m) = elim (Bool-cases (eq_key i j)) [
      | inl s ↦ elim (Bool-cases (eq_key j k)) [
        | inl e ↦ rw (s, e) (get_or-here d k j c m e)
        | inr e ↦
            let other : eq_key i k ≡ false = ap (λ x. eq_key x k) (same i j s) ∙ e in
            rw (s, e) (get_or-later d k j c m e ∙ sym (get_or-later d k i w m other))
      ]
      | inr s ↦ elim (Bool-cases (eq_key i k)) [
        | inl e ↦
            let other = apart eq_key same i j k s e in
            rw (s, other) (get_or-here d k i w (insert j c m) e ∙ sym (get_or-here d k i w m e))
        | inr e ↦ rw s (
            get_or-later d k i w (insert j c m) e
            ∙ get_or-insert d k j c m
            ∙ ap (λ x. if eq_key j k then c else x) (sym (get_or-later d k i w m e)))
      ]
    ]

    has_key-insert :
        (k j : K) (c : V) (m : List (K × V))
        → eq_key j k ≡ false
        → has_key k (insert j c m) ≡ has_key k m
    unfolding insert
    has_key-insert k j c [] h = rw h
    has_key-insert k j c ((i, w) ∷ m) h = elim (Bool-cases (eq_key i j)) [
      | inl s ↦
          let other : eq_key i k ≡ false = ap (λ x. eq_key x k) (same i j s) ∙ h in rw (s, h, other)
      | inr s ↦ rw (s, has_key-insert k j c m h)
    ]

    pub distinct-insert :
        (k : K) (c : V) (m : List (K × V)) → distinct m ≡ true → distinct (insert k c m) ≡ true
    unfolding insert
    distinct-insert k c [] h = refl
    distinct-insert k c ((i, w) ∷ m) h = elim (Bool-cases (eq_key i k)) [
      | inl s ↦ rw s (subst (λ x. (not (has_key x m) && distinct m) ≡ true) (same i k s) h)
      | inr s ↦
          let other : eq_key k i ≡ false = elim (Bool-cases (eq_key k i)) [
            | inl t ↦
                let both : eq_key i k ≡ true =
                  ap (λ x. eq_key x k) (sym (same k i t)) ∙ reflexive k in
                absurd cc
            | inr t ↦ t
          ] in
          let rest = distinct-insert k c m (ground (arith, h)) in
          rw (s, has_key-insert i k c m other) (ground (arith, h, rest))
    ]
