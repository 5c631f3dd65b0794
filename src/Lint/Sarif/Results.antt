-- ===== src/Lint/Sarif/Results.antt =====
-- The SARIF log as a whole: its catalog of rules, and where its results point.
use dbopt.Base.{
  ℕ, zero, suc, ◌≤◌, ◌≡◌, refl, ap, ◌∙◌, sym, Bool, true, false, ◌&&◌, ◌||◌, Bool-cases, inl, inr,
  Option, none, some, List, [], ◌∷◌, ◌++◌, map, leb, ltb, ◌==◌, get_elem?, any, all, append_assoc,
  arith,
}
use dbopt.Base.Bytes.{Bytes, eq_bytes}
use dbopt.Base.Bytes.Laws.{eq_bytes_iff, eq_bytes_refl}
use dbopt.Findings.{Severity, info, warning, error, critical, rank}
use dbopt.Lint.{FileFinding}
use dbopt.Lint.Cap.{count_rule, first_of_each, cap_per_rule-first_of_each}
use dbopt.Lint.Sarif.{
  sarif_level, level_rank, RuleDoc, Descriptor, descriptor, Catalog, no_rules, catalog_from,
}
use dbopt.Lint.Sarif.Levels.{worst}
use dbopt.Lint.Sarif.Descriptors.{
  without, rule_ids, is_distinct, position_of, described, position_of-some, find_at, at_start,
  at_later,
}
use dbopt.Lint.Sarif.Loop.{catalog-described}
use dbopt.Lint.Sarif.Log.{SarifResult, sarif_result, build_sarif}

level_rank_mono :
    (a b : Severity)
    → rank a ≤ rank b
    → leb (level_rank (sarif_level a)) (level_rank (sarif_level b)) ≡ true
unfolding level_rank eq_bytes
level_rank_mono info info h = refl
level_rank_mono info _ h = absurd (omega (arith, h))
level_rank_mono warning info h = refl
level_rank_mono warning warning h = refl
level_rank_mono warning _ h = absurd (omega (arith, h))
level_rank_mono error info h = refl
level_rank_mono error warning h = refl
level_rank_mono error error h = refl
level_rank_mono error critical h = absurd (omega (arith, h))
level_rank_mono critical _ h = ground arith

-- What holds of every finding of a list, wherever it stands, holds of all.
all_of :
    (p : FileFinding → Bool) (whole before fs : List FileFinding)
    → whole ≡ before ++ fs
    → ((xs ys : List FileFinding) (f : FileFinding) → whole ≡ xs ++ f ∷ ys → p f ≡ true)
    → all p fs ≡ true
all_of p whole before [] e h = refl
all_of p whole before (f ∷ fs) e h =
    let here = h before fs f e in
    let rest = all_of p whole (before ++ f ∷ []) fs (e ∙ sym (append_assoc before (f ∷ []) fs)) h in
    rw (here, rest)

all-first_of_each :
    (p : FileFinding → Bool) (max : ℕ) (before fs : List FileFinding)
    → all p fs ≡ true
    → all p (first_of_each max before fs) ≡ true
all-first_of_each p max before [] h = refl
all-first_of_each p max before (f ∷ fs) h =
    let rest = all-first_of_each p max (before ++ f ∷ []) fs (ground (arith, h)) in
    elim (Bool-cases (max == 0 || ltb (count_rule f.finding.rule before) max)) [
      | inl e ↦ rw e (ground (arith, h, rest))
      | inr e ↦ rw e rest
    ]

any-without :
    (r id : Bytes) (ids : List Bytes)
    → eq_bytes r id ≡ false
    → any (eq_bytes r) (without id ids) ≡ any (eq_bytes r) ids
any-without r id [] n = refl
any-without r id (x ∷ ids) n = elim (Bool-cases (eq_bytes x id)) [
  | inl e ↦
      let far : eq_bytes r x ≡ false = rw ((eq_bytes_iff x id).0 e) n in
      rw (e, far) (any-without r id ids n)
  | inr e ↦ rw (e, any-without r id ids n)
]

rule_ids-has :
    (xs : List FileFinding) (f : FileFinding) (ys : List FileFinding)
    → any (eq_bytes f.finding.rule) (rule_ids (xs ++ f ∷ ys)) ≡ true
rule_ids-has [] f ys = rw (eq_bytes_refl f.finding.rule)
rule_ids-has (g ∷ xs) f ys = elim (Bool-cases (eq_bytes f.finding.rule g.finding.rule)) [
  | inl e ↦ rw e
  | inr e ↦
      rw e (
        any-without f.finding.rule g.finding.rule (rule_ids (xs ++ f ∷ ys)) e
        ∙ rule_ids-has xs f ys)
]

worst-le :
    (xs : List FileFinding) (f : FileFinding) (ys : List FileFinding)
    → rank (worst f.finding.rule (xs ++ f ∷ ys)) ≤ rank f.finding.severity
worst-le [] f ys = rw (eq_bytes_refl f.finding.rule) (ground arith)
worst-le (g ∷ xs) f ys = ground (arith, worst-le xs f ys)

described-get :
    (docs : List (Bytes × RuleDoc)) (g : Bytes → Severity) (r : Bytes) (ids : List Bytes) (n : ℕ)
    → position_of r ids ≡ some n
    → get_elem? (described docs g ids) n ≡ some (descriptor docs r (sarif_level (g r)))
described-get docs g r [] n h = absurd cc
described-get docs g r (x ∷ ids) zero h =
    let e = at_start (eq_bytes x r) (position_of r ids) (find_at _ _ 0 h) in
    ap (λ y. some (descriptor docs y (sarif_level (g y)))) ((eq_bytes_iff x r).0 e)
described-get docs g r (x ∷ ids) (suc n) h =
    let later = at_later (eq_bytes x r) (position_of r ids) n (find_at _ _ (suc n) h) in
    described-get docs g r ids n later.1

-- The index of a result is that of its rule in the catalog, whose level is at least as severe as that
-- of the result.
abbrev pub is_resolved : List Descriptor → SarifResult → Bool
is_resolved rules r = elim (get_elem? rules r.rule_index) [
  | none ↦ false
  | some d ↦ eq_bytes d.id r.rule_id && leb (level_rank d.level) (level_rank r.level)
]

resolved_at :
    (rules : List Descriptor) (r : SarifResult) (d : Descriptor)
    → get_elem? rules r.rule_index ≡ some d
    → (eq_bytes d.id r.rule_id && leb (level_rank d.level) (level_rank r.level)) ≡ true
    → is_resolved rules r ≡ true
resolved_at rules r d h e = rw (h, is_resolved) e

module _ (docs : List (Bytes × RuleDoc)) (version : Bytes) (cwd : Option Bytes)
    (whole : List FileFinding) where
  abbrev catalog : Catalog
  catalog = catalog_from docs no_rules whole

  result_resolved :
      (xs ys : List FileFinding) (f : FileFinding)
      → whole ≡ xs ++ f ∷ ys
      → is_resolved catalog.rules (sarif_result cwd catalog f) ≡ true
  unfolding sarif_result
  result_resolved xs ys f e =
      let l = catalog-described docs whole in
      let r = f.finding.rule in
      let has : any (eq_bytes r) (rule_ids whole) ≡ true = rw e (rule_ids-has xs f ys) in
      let p = position_of-some r (rule_ids whole) has in
      let index = l.index r ∙ p.1 in
      let found =
        ap (λ ds. get_elem? ds p.0) l.rules
        ∙ described-get docs (λ r. worst r whole) r (rule_ids whole) p.0 p.1 in
      let le : rank (worst r whole) ≤ rank f.finding.severity = rw e (worst-le xs f ys) in
      let level = level_rank_mono (worst r whole) f.finding.severity le in
      let place : (sarif_result cwd catalog f).rule_index ≡ p.0 =
        ap (λ o. elim o [ none ↦ 0 | some n ↦ n ]) index in
      resolved_at catalog.rules (sarif_result cwd catalog f)
        (descriptor docs r (sarif_level (worst r whole)))
        (ap (get_elem? catalog.rules) place ∙ found) (rw (eq_bytes_refl r, level))

  all_resolved :
      (fs : List FileFinding)
      → all (λ f. is_resolved catalog.rules (sarif_result cwd catalog f)) fs ≡ true
      → all (is_resolved catalog.rules) (map (sarif_result cwd catalog) fs) ≡ true
  all_resolved [] h = refl
  all_resolved (f ∷ fs) h = rw (all_resolved fs (ground (arith, h))) (ground (arith, h))

  -- Under any cap, the catalog of the log lists the rules of all findings, each once, in the order in
  -- which they first appear, each with its static texts and the level of the most severe of its
  -- findings.
  pub build_sarif-rules :
      (errors : List (Bytes × Bytes)) (max : ℕ)
      → ((build_sarif docs version cwd whole errors max).rules
          ≡ described docs (λ r. worst r whole) (rule_ids whole))
        × (is_distinct (rule_ids whole) ≡ true)
  unfolding build_sarif
  build_sarif-rules errors max =
      ((catalog-described docs whole).rules, (catalog-described docs whole).distinct)

  -- Under any cap, the index of every result is that of a rule of the catalog with the id of the
  -- result, whose level is at least as severe as that of the result.
  pub build_sarif-results :
      (errors : List (Bytes × Bytes)) (max : ℕ)
      → all
          (is_resolved (build_sarif docs version cwd whole errors max).rules)
          (build_sarif docs version cwd whole errors max).results
        ≡ true
  unfolding build_sarif
  build_sarif-results errors max =
      let p = λ (f : FileFinding). is_resolved catalog.rules (sarif_result cwd catalog f) in
      let every = all_of p whole [] whole refl result_resolved in
      let kept = (cap_per_rule-first_of_each whole max []).0 in
      rw kept (all_resolved (first_of_each max [] whole) (all-first_of_each p max [] whole every))
