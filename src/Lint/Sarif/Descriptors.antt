-- ===== src/Lint/Sarif/Descriptors.antt =====
-- The catalog of the rules of a SARIF log, against a description that looks at all findings at once.
use dbopt.Base.{
  ℕ, zero, suc, ◌≡◌, refl, ap, ◌∙◌, sym, Bool, true, false, not, ◌&&◌, Bool-cases, inl, inr, Option,
  none, some, some_inj, List, [], ◌∷◌, ◌++◌, map, if◌then◌else◌, length, any, any-append, arith,
}
use dbopt.Base.Bytes.{Bytes, eq_bytes}
use dbopt.Base.Bytes.Laws.{eq_bytes_iff, eq_bytes_sym}
use dbopt.Findings.{Severity}
use dbopt.Lint.{FileFinding}
use dbopt.Lint.Sarif.Levels.{worse, raised-worse}
use dbopt.Lint.Sarif.{sarif_level, RuleDoc, Descriptor, descriptor, raise_level}

-- The ids without one of them.
abbrev pub without : Bytes → List Bytes → List Bytes
without r [] = []
without r (x ∷ xs) = if eq_bytes x r then without r xs else x ∷ without r xs

-- The ids of the rules of the findings, each once, in the order in which they first appear.
abbrev pub rule_ids : List FileFinding → List Bytes
rule_ids [] = []
rule_ids (f ∷ fs) = f.finding.rule ∷ without f.finding.rule (rule_ids fs)

abbrev pub is_distinct : List Bytes → Bool
is_distinct [] = true
is_distinct (x ∷ xs) = not (any (eq_bytes x) xs) && is_distinct xs

abbrev pub position_of : Bytes → List Bytes → Option ℕ
position_of r [] = none
position_of r (x ∷ xs) =
    let rest : Option ℕ = elim (position_of r xs) [ none ↦ none | some n ↦ some (suc n) ] in
    if eq_bytes x r then some 0 else rest

-- A rule of the catalog, with the level of a severity.
abbrev pub described : List (Bytes × RuleDoc) → (Bytes → Severity) → List Bytes → List Descriptor
described docs severity = map (λ r. descriptor docs r (sarif_level (severity r)))

-- The severities with one more finding of a rule.
abbrev pub with_finding : Bytes → Severity → (Bytes → Severity) → Bytes → Severity
with_finding id s severity r = if eq_bytes id r then worse (severity r) s else severity r

-- Where a position comes from: the head, or a position in the rest.
pub data Position (b : Bool) (o : Option ℕ) (n : ℕ) : Type 0 where
  at_head : b ≡ true → n ≡ 0 → Position b o n
  behind : (k : ℕ) → b ≡ false → n ≡ suc k → o ≡ some k → Position b o n

pub find_at :
    (b : Bool) (o : Option ℕ) (n : ℕ)
    → (if b then some 0 else elim o [ none ↦ none | some k ↦ some (suc k) ]) ≡ some n
    → Position b o n
find_at true o n h = at_head refl (sym (some_inj 0 n h))
find_at false none n h = absurd cc
find_at false (some k) n h = behind k refl (sym (some_inj (suc k) n h)) refl

pub at_start : (b : Bool) (o : Option ℕ) → Position b o 0 → b ≡ true
at_start b o (at_head e n) = e
at_start b o (behind k e n p) = absurd (omega (arith, n))

pub at_later : (b : Bool) (o : Option ℕ) (n : ℕ) → Position b o (suc n) → (b ≡ false) × (o ≡ some n)
at_later b o n (at_head e z) = absurd (omega (arith, z))
at_later b o n (behind k e z p) = (e, p ∙ ap some (omega (arith, z)))

module _ (docs : List (Bytes × RuleDoc)) where
  pub described-other :
      (g : Bytes → Severity) (id : Bytes) (s : Severity) (ids : List Bytes)
      → any (eq_bytes id) ids ≡ false
      → described docs g ids ≡ described docs (with_finding id s g) ids
  described-other g id s [] h = refl
  described-other g id s (r ∷ ids) h =
      let here : eq_bytes id r ≡ false = ground (arith, h) in
      let rest = described-other g id s ids (ground (arith, h)) in
      rw (here) (ap (◌∷◌ (descriptor docs r (sarif_level (g r)))) rest)

  pub raise_level-described :
      (g : Bytes → Severity) (id : Bytes) (s : Severity) (ids : List Bytes) (idx : ℕ)
      → position_of id ids ≡ some idx
      → is_distinct ids ≡ true
      → raise_level (sarif_level s) idx (described docs g ids)
        ≡ described docs (with_finding id s g) ids
  unfolding raise_level
  raise_level-described g id s [] idx p d = absurd cc
  raise_level-described g id s (r ∷ ids) zero p d =
      let found = at_start (eq_bytes r id) (position_of id ids) (find_at _ _ 0 p) in
      let same : id ≡ r = sym ((eq_bytes_iff r id).0 found) in
      let apart : any (eq_bytes id) ids ≡ false = rw same (ground (arith, d)) in
      let here : eq_bytes id r ≡ true = (eq_bytes_iff id r).1 same in
      rw (here, raised-worse (g r) s)
        (ap (◌∷◌ (descriptor docs r (sarif_level (worse (g r) s))))
          (described-other g id s ids apart))
  raise_level-described g id s (r ∷ ids) (suc idx) p d =
      let later = at_later (eq_bytes r id) (position_of id ids) idx (find_at _ _ (suc idx) p) in
      let other : eq_bytes id r ≡ false = eq_bytes_sym id r ∙ later.0 in
      let distinct : is_distinct ids ≡ true = ground (arith, d) in
      let rest = raise_level-described g id s ids idx later.1 distinct in
      rw (other) (ap (◌∷◌ (descriptor docs r (sarif_level (g r)))) rest)

-- The position of an id in a list with one more id at the end that was not in it.
pub position_of-concat :
    (r id : Bytes) (ids : List Bytes)
    → any (eq_bytes id) ids ≡ false
    → position_of r (ids ++ id ∷ [])
      ≡ (if eq_bytes id r then some (length ids) else position_of r ids)
position_of-concat r id [] h = refl
position_of-concat r id (x ∷ ids) h =
    let rest = position_of-concat r id ids (ground (arith, h)) in
    let other : eq_bytes id x ≡ false = ground (arith, h) in
    elim (Bool-cases (eq_bytes id r)) [
      | inl e ↦
          let same : id ≡ r = (eq_bytes_iff id r).0 e in
          let apart : eq_bytes x r ≡ false = eq_bytes_sym x r ∙ rw (sym same) other in
          rw (rest, e, apart)
      | inr e ↦ rw (rest, e)
    ]

pub is_distinct-concat :
    (id : Bytes) (ids : List Bytes)
    → any (eq_bytes id) ids ≡ false
    → is_distinct ids ≡ true
    → is_distinct (ids ++ id ∷ []) ≡ true
is_distinct-concat id [] h d = refl
is_distinct-concat id (x ∷ ids) h d =
    let rest = is_distinct-concat id ids (ground (arith, h)) (ground (arith, d)) in
    let other : eq_bytes x id ≡ false = eq_bytes_sym x id ∙ ground (arith, h) in
    let apart : any (eq_bytes x) (ids ++ id ∷ []) ≡ false =
      any-append (eq_bytes x) ids (id ∷ []) ∙ rw other (ground (arith, d)) in
    rw (rest, apart)

pub position_of-none :
    (id : Bytes) (ids : List Bytes) → any (eq_bytes id) ids ≡ false → position_of id ids ≡ none
position_of-none id [] h = refl
position_of-none id (x ∷ ids) h =
    let other : eq_bytes x id ≡ false = eq_bytes_sym x id ∙ ground (arith, h) in
    rw (other, position_of-none id ids (ground (arith, h)))

pub position_of-some :
    (id : Bytes) (ids : List Bytes)
    → any (eq_bytes id) ids ≡ true
    → (idx : ℕ) × (position_of id ids ≡ some idx)
position_of-some id [] h = absurd cc
position_of-some id (x ∷ ids) h = elim (Bool-cases (eq_bytes x id)) [
  | inl e ↦ (0, rw e refl)
  | inr e ↦
      let other : eq_bytes id x ≡ false = eq_bytes_sym id x ∙ e in
      let rest = position_of-some id ids (ground (arith, h, other)) in
      (suc rest.0, rw (e, rest.1) refl)
]
