-- ===== src/Suppress/Names.antt =====
-- Which rules a spec names: crates/analyzer-cli/src/suppress.rs, `spec_matches`.
use dbopt.Base.{
  ◌≡◌, refl, sym, ap, ◌∙◌, ◌↔◌, ◌⊎◌, inl, inr, true, false, Option, none, some, [], ◌∷◌, ◌++◌,
  arith, Bool-cases, append_assoc,
}
use dbopt.Base.Bytes.{Bytes, codes, eq_bytes, eq_ignore_case, lowercase, starts_with}
use dbopt.Base.Bytes.Laws.{
  eq_bytes_iff, eq_ignore_case_iff, lowercase-append, starts_with-append, starts_with_rest,
}
use dbopt.Base.Text.{trim, is_empty, strip_suffix, contains_byte}
use dbopt.Base.Text.Laws.{strip_suffix-append, strip_suffix_sound, strip_suffix_no_dot}
use dbopt.Suppress.{is_wildcard, dotted, matches_glob, matches_plain, trimmed_matches, spec_matches}

-- The family itself, or a rule whose id goes on behind the family's name and a dot.
abbrev pub InFamily : Bytes → Bytes → Type 0
InFamily family rule = (rule ≡ family) ⊎ ((rest : Bytes) × (rule ≡ family ++ b'.' ∷ rest))

-- What a spec with no white space round it names, up to case.
pub data Names (spec rule : Bytes) : Type 0 where
  wildcard : is_wildcard spec ≡ true → Names spec rule
  exact : lowercase spec ≡ lowercase rule → Names spec rule
  family :
      contains_byte b'.' spec ≡ false → InFamily (lowercase spec) (lowercase rule) → Names spec rule
  glob :
      (prefix : Bytes)
      → spec ≡ prefix ++ codes ".*"
      → InFamily (lowercase prefix) (lowercase rule)
      → Names spec rule

matches_glob_iff : (f r : Bytes) → (matches_glob f r ≡ true) ↔ InFamily f r
matches_glob_iff f r = (sound, complete)
  where
    sound : matches_glob f r ≡ true → InFamily f r
    sound h = elim (Bool-cases (eq_bytes r f)) [
      | inl e ↦ inl ((eq_bytes_iff r f).0 e)
      | inr e ↦
          let (rest, split) = starts_with_rest (dotted f) r (ground (arith, h, e)) in
          inr (rest, split ∙ append_assoc f (b'.' ∷ []) rest)
    ]

    complete : InFamily f r → matches_glob f r ≡ true
    complete (inl e) = ground (arith, (eq_bytes_iff r f).1 e)
    complete (inr (rest, e)) =
        let starts : starts_with (dotted f) r ≡ true =
          rw (e ∙ sym (append_assoc f (b'.' ∷ []) rest)) (starts_with-append (dotted f) rest) in
        ground (arith, starts)

Option-cases {ℓ} : {A : Type ℓ} (o : Option A) → (o ≡ none) ⊎ ((a : A) × (o ≡ some a))
Option-cases none = inl refl
Option-cases (some a) = inr (a, refl)

matches_plain-Names : (spec rule : Bytes) → matches_plain spec rule ≡ true → Names spec rule
matches_plain-Names spec rule h = elim (Bool-cases (eq_ignore_case spec rule)) [
  | inl e ↦ exact ((eq_ignore_case_iff spec rule).0 e)
  | inr e ↦
      let (rest, split) =
        starts_with_rest (dotted (lowercase spec)) (lowercase rule) (ground (arith, h, e)) in
      family (ground (arith, h, e))
        (inr (rest, split ∙ append_assoc (lowercase spec) (b'.' ∷ []) rest))
]

Names-matches_plain :
    (spec rule : Bytes)
    → contains_byte b'.' spec ≡ false
    → InFamily (lowercase spec) (lowercase rule)
    → matches_plain spec rule ≡ true
Names-matches_plain spec rule h (inl e) = ground (arith, (eq_ignore_case_iff spec rule).1 (sym e))
Names-matches_plain spec rule h (inr (rest, e)) =
    let starts : starts_with (dotted (lowercase spec)) (lowercase rule) ≡ true =
      rw (e ∙ sym (append_assoc (lowercase spec) (b'.' ∷ []) rest))
        (starts_with-append (dotted (lowercase spec)) rest) in
    ground (arith, starts)

exact-InFamily :
    (spec rule prefix : Bytes)
    → lowercase spec ≡ lowercase rule
    → spec ≡ prefix ++ codes ".*"
    → InFamily (lowercase prefix) (lowercase rule)
unfolding lowercase
exact-InFamily spec rule prefix e split =
    inr (codes "*", sym e ∙ ap lowercase split ∙ lowercase-append prefix (codes ".*"))

module _ (spec rule : Bytes) (full : is_empty spec ≡ false) where
  trimmed_matches-Names : trimmed_matches spec rule ≡ true → Names spec rule
  unfolding trimmed_matches
  trimmed_matches-Names h = elim (Bool-cases (is_wildcard spec)) [
    | inl e ↦ wildcard e
    | inr e ↦ elim (Option-cases (strip_suffix (codes ".*") spec)) [
      | inl s ↦ matches_plain-Names spec rule (rw (full, e, s) at h)
      | inr (prefix, s) ↦
          glob prefix (strip_suffix_sound spec s)
            ((matches_glob_iff (lowercase prefix) (lowercase rule)).0 (rw (full, e, s) at h))
    ]
  ]

  Names-trimmed_matches : Names spec rule → trimmed_matches spec rule ≡ true
  unfolding trimmed_matches
  Names-trimmed_matches (wildcard e) = rw (full, e)
  Names-trimmed_matches (exact e) = elim (Bool-cases (is_wildcard spec)) [
    | inl w ↦ rw (full, w)
    | inr w ↦ elim (Option-cases (strip_suffix (codes ".*") spec)) [
      | inl s ↦ rw (full, w, s) (ground (arith, (eq_ignore_case_iff spec rule).1 e))
      | inr (prefix, s) ↦
          rw (full, w, s)
            ((matches_glob_iff (lowercase prefix) (lowercase rule)).1
              (exact-InFamily spec rule prefix e (strip_suffix_sound spec s)))
    ]
  ]
  Names-trimmed_matches (family h f) = elim (Bool-cases (is_wildcard spec)) [
    | inl w ↦ rw (full, w)
    | inr w ↦ rw (full, w, strip_suffix_no_dot spec h) (Names-matches_plain spec rule h f)
  ]
  Names-trimmed_matches (glob prefix e f) = elim (Bool-cases (is_wildcard spec)) [
    | inl w ↦ rw (full, w)
    | inr w ↦
        let s = ap (strip_suffix (codes ".*")) e ∙ strip_suffix-append prefix in
        rw (full, w, s) ((matches_glob_iff (lowercase prefix) (lowercase rule)).1 f)
  ]

-- A spec that is not blank matches a rule exactly if, trimmed, it is a wildcard, is the rule's id up
-- to case, is a name with no dot whose family the rule belongs to, or is `<family>.*` for such a
-- family: a family is a whole segment of the id, never a mere prefix.
pub spec_matches_iff :
    (spec rule : Bytes)
    → is_empty (trim spec) ≡ false
    → (spec_matches spec rule ≡ true) ↔ Names (trim spec) rule
unfolding spec_matches
spec_matches_iff spec rule full =
    (trimmed_matches-Names (trim spec) rule full, Names-trimmed_matches (trim spec) rule full)

-- A blank spec matches nothing.
pub spec_matches_blank :
    (spec rule : Bytes) → is_empty (trim spec) ≡ true → spec_matches spec rule ≡ false
unfolding spec_matches trimmed_matches
spec_matches_blank spec rule h = rw h
