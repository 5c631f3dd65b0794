-- ===== src/Lint/Cap.antt =====
-- crates/analyzer-cli/src/lint.rs: `cap_per_rule`. The two maps from rules to counts are association
-- lists; the source reads them by key, and sorts the one that it prints.
use dbopt.Base.{
  ℕ, suc, ◌+◌, ◌-◌, ◌≤◌, ◌≡◌, refl, sym, ap, ◌∙◌, Bool, ◌||◌, List, [], ◌∷◌, ◌++◌, leb, ltb, ◌==◌,
  if◌then◌else◌, arith, append_assoc, append-nil, Bool-cases, inl, inr,
}
use dbopt.Base.Bytes.{Bytes, eq_bytes}
use dbopt.Base.Bytes.Laws.{eq_bytes_iff, eq_bytes_refl}
use dbopt.Lint.{FileFinding}

abbrev pub Tally : Type 0
Tally = List (Bytes × ℕ)

unfoldable pub tally_of : Bytes → Tally → ℕ
unfolding eq_bytes
tally_of r [] = 0
tally_of r ((k, n) ∷ m) = if eq_bytes k r then n else tally_of r m

-- `*map.entry(rule).or_insert(0) += 1`
unfoldable pub bump : Bytes → Tally → Tally
unfolding eq_bytes
bump r [] = (r, 1) ∷ []
bump r ((k, n) ∷ m) = if eq_bytes k r then (k, n + 1) ∷ m else (k, n) ∷ bump r m

pub record Capped : Type 0 where
  pub kept : List FileFinding
  pub seen : Tally
  pub hidden : Tally

unfoldable pub cap_step : ℕ → Capped → FileFinding → Capped
unfolding tally_of bump
cap_step max st ff =
    let rule = ff.finding.rule in
    let seen = bump rule st.seen in
    if max == 0 || leb (tally_of rule seen) max
    then record { kept = st.kept ++ ff ∷ []; seen = seen; hidden = st.hidden }
    else record { kept = st.kept; seen = seen; hidden = bump rule st.hidden }

unfoldable pub cap_from : ℕ → Capped → List FileFinding → Capped
unfolding cap_step
cap_from max st [] = st
cap_from max st (ff ∷ rest) = cap_from max (cap_step max st ff) rest

abbrev nothing_capped : Capped
nothing_capped = record { kept = []; seen = []; hidden = [] }

unfoldable pub cap_per_rule : List FileFinding → ℕ → Capped
unfolding cap_from
cap_per_rule all max = cap_from max nothing_capped all

-- Findings of a rule.
abbrev pub count_rule : Bytes → List FileFinding → ℕ
count_rule r [] = 0
count_rule r (f ∷ fs) = (if eq_bytes f.finding.rule r then 1 else 0) + count_rule r fs

-- The findings in front of which fewer than `max` of the same rule stand, or all if `max` is 0;
-- `before` stands in front of the list.
abbrev pub first_of_each : ℕ → List FileFinding → List FileFinding → List FileFinding
first_of_each max before [] = []
first_of_each max before (f ∷ fs) =
    let rest = first_of_each max (before ++ f ∷ []) fs in
    if max == 0 || ltb (count_rule f.finding.rule before) max then f ∷ rest else rest

pub tally_of-bump :
    (r k : Bytes) (m : Tally)
    → tally_of r (bump k m) ≡ (if eq_bytes k r then suc (tally_of r m) else tally_of r m)
unfolding tally_of bump
tally_of-bump r k [] = ground arith
tally_of-bump r k ((j, n) ∷ m) =
    ground (arith, tally_of-bump r k m, eq_bytes_iff j k, eq_bytes_iff j r, eq_bytes_iff k r)

count_rule-concat :
    (r : Bytes) (fs : List FileFinding) (f : FileFinding)
    → count_rule r (fs ++ f ∷ []) ≡ count_rule r fs + (if eq_bytes f.finding.rule r then 1 else 0)
count_rule-concat r [] f = omega arith
count_rule-concat r (x ∷ fs) f = omega (arith, count_rule-concat r fs f)

-- The map of the counts holds those of the findings passed.
record Seen (before : List FileFinding) (t : Tally) : Type 0 where
  at : (r : Bytes) → tally_of r t ≡ count_rule r before

Seen-bump :
    (before : List FileFinding) (t : Tally) (f : FileFinding)
    → Seen before t
    → Seen (before ++ f ∷ []) (bump f.finding.rule t)
Seen-bump before t f s = record {
  at = λ r. ground (arith, tally_of-bump r f.finding.rule t, count_rule-concat r before f, s.at r);
}

abbrev shows : ℕ → List FileFinding → FileFinding → Bool
shows max before f = max == 0 || ltb (count_rule f.finding.rule before) max

cap_test :
    (max : ℕ) (before : List FileFinding) (t : Tally) (f : FileFinding)
    → Seen before t
    → (max == 0 || leb (tally_of f.finding.rule (bump f.finding.rule t)) max) ≡ shows max before f
cap_test max before t f s = ground (
  arith,
  tally_of-bump f.finding.rule f.finding.rule t,
  eq_bytes_refl f.finding.rule,
  s.at f.finding.rule,
)

cap_step-seen :
    (max : ℕ) (st : Capped) (f : FileFinding)
    → (cap_step max st f).seen ≡ bump f.finding.rule st.seen
unfolding cap_step
cap_step-seen max st f = ground arith

cap_step-kept :
    (max : ℕ) (before : List FileFinding) (st : Capped) (f : FileFinding)
    → Seen before st.seen
    → (cap_step max st f).kept ≡ (if shows max before f then st.kept ++ f ∷ [] else st.kept)
unfolding cap_step
cap_step-kept max before st f s = rw (cap_test max before st.seen f s) (ground arith)

cap_step-hidden :
    (max : ℕ) (before : List FileFinding) (st : Capped) (f : FileFinding)
    → Seen before st.seen
    → (cap_step max st f).hidden
      ≡ (if shows max before f then st.hidden else bump f.finding.rule st.hidden)
unfolding cap_step
cap_step-hidden max before st f s = rw (cap_test max before st.seen f s) (ground arith)

Seen-cap_step :
    (max : ℕ) (before : List FileFinding) (st : Capped) (f : FileFinding)
    → Seen before st.seen
    → Seen (before ++ f ∷ []) (cap_step max st f).seen
Seen-cap_step max before st f s = rw cap_step-seen (Seen-bump before st.seen f s)

cap_from-kept :
    (max : ℕ) (before : List FileFinding) (st : Capped) (fs : List FileFinding)
    → Seen before st.seen
    → (cap_from max st fs).kept ≡ st.kept ++ first_of_each max before fs
unfolding cap_from
cap_from-kept max before st [] s = sym (append-nil st.kept)
cap_from-kept max before st (f ∷ fs) s =
    let rest = first_of_each max (before ++ f ∷ []) fs in
    cap_from-kept max (before ++ f ∷ []) (cap_step max st f) fs (Seen-cap_step max before st f s)
    ∙ ap (λ l. l ++ rest) (cap_step-kept max before st f s)
    ∙ elim (Bool-cases (shows max before f)) [
      | inl e ↦ rw e (append_assoc st.kept (f ∷ []) rest)
      | inr e ↦ rw e
    ]

cap_from-counts :
    (max : ℕ) (r : Bytes) (before : List FileFinding) (st : Capped) (fs : List FileFinding)
    → Seen before st.seen
    → count_rule r (cap_from max st fs).kept + tally_of r (cap_from max st fs).hidden
      ≡ count_rule r st.kept + tally_of r st.hidden + count_rule r fs
unfolding cap_from
cap_from-counts max r before st [] s = omega arith
cap_from-counts max r before st (f ∷ fs) s =
    cap_from-counts max r (before ++ f ∷ []) (cap_step max st f) fs
      (Seen-cap_step max before st f s)
    ∙ elim (Bool-cases (shows max before f)) [
      | inl e ↦
          rw (cap_step-kept max before st f s, cap_step-hidden max before st f s, e)
            (omega (arith, count_rule-concat r st.kept f))
      | inr e ↦
          rw (cap_step-kept max before st f s, cap_step-hidden max before st f s, e)
            (ground (arith, tally_of-bump r f.finding.rule st.hidden))
    ]

first_of_each-le :
    (max : ℕ) (r : Bytes) (before fs : List FileFinding)
    → 1 ≤ max
    → count_rule r (first_of_each max before fs) ≤ max - count_rule r before
first_of_each-le max r before [] h = omega arith
first_of_each-le max r before (f ∷ fs) h = ground (
  arith,
  first_of_each-le max r (before ++ f ∷ []) fs h,
  count_rule-concat r before f,
  eq_bytes_iff f.finding.rule r,
)

Seen-nil : Seen [] []
unfolding tally_of
Seen-nil = record { at = λ r. refl }

-- Under a cap of `max` the findings kept are, in order, those in front of which fewer than `max` of
-- their rule stand, and all if `max` is 0; and of each rule, the findings kept and those counted as
-- rolled up are together all of it.
pub cap_per_rule-first_of_each :
    (all : List FileFinding) (max : ℕ) (r : Bytes)
    → ((cap_per_rule all max).kept ≡ first_of_each max [] all)
      × (count_rule r (cap_per_rule all max).kept + tally_of r (cap_per_rule all max).hidden
          ≡ count_rule r all)
unfolding cap_per_rule tally_of
cap_per_rule-first_of_each all max r = (
  cap_from-kept max [] nothing_capped all Seen-nil,
  cap_from-counts max r [] nothing_capped all Seen-nil ∙ omega arith,
)

-- A cap that is not 0 is kept for every rule.
pub cap_per_rule-le :
    (all : List FileFinding) (max : ℕ) (r : Bytes)
    → 1 ≤ max
    → count_rule r (cap_per_rule all max).kept ≤ max
cap_per_rule-le all max r h =
    rw ((cap_per_rule-first_of_each all max r).0) (omega (arith, first_of_each-le max r [] all h))
