-- ===== src/Lint/Sarif/Loop.antt =====
-- The loop that gathers the rules of a SARIF log, against a description that looks at all findings
-- at once.
use dbopt.Base.{
  suc, ◌≡◌, refl, ap, ◌∙◌, sym, true, false, ◌||◌, Bool-cases, inl, inr, some, List, [], ◌∷◌, ◌++◌,
  if◌then◌else◌, length, any, any-append, subst, append_assoc, append-nil, arith,
}
use dbopt.Base.Bytes.{Bytes, eq_bytes}
use dbopt.Base.Bytes.Laws.{eq_bytes_iff, eq_bytes_refl, eq_bytes_sym}
use dbopt.Findings.{Severity, info}
use dbopt.Lint.{FileFinding}
use dbopt.Lint.Sarif.Levels.{worse_info, worst, worst-concat}
use dbopt.Lint.Sarif.Descriptors.{
  without, rule_ids, is_distinct, position_of, described, with_finding, described-other,
  raise_level-described, position_of-concat, is_distinct-concat, position_of-none, position_of-some,
}
use dbopt.Lint.Sarif.{
  sarif_level, RuleDoc, descriptor, Catalog, no_rules, index_of, raise_level, catalog_step,
  catalog_from,
}

-- What the catalog holds when the findings `before` were passed and `ids` are their rules.
pub record Lists (docs : List (Bytes × RuleDoc)) (before : List FileFinding) (ids : List Bytes)
    (cat : Catalog) : Type 0 where
  pub rules : cat.rules ≡ described docs (λ r. worst r before) ids
  pub index : (r : Bytes) → index_of r cat.rule_index ≡ position_of r ids
  pub distinct : is_distinct ids ≡ true
  pub unknown : (r : Bytes) → any (eq_bytes r) ids ≡ false → worst r before ≡ info

described-ext :
    (docs : List (Bytes × RuleDoc)) (g h : Bytes → Severity) (ids : List Bytes)
    → ((r : Bytes) → g r ≡ h r)
    → described docs g ids ≡ described docs h ids
described-ext docs g h [] e = refl
described-ext docs g h (r ∷ ids) e =
    let rest = described-ext docs g h ids e in
    rw (e r) (ap (◌∷◌ (descriptor docs r (sarif_level (h r)))) rest)

described-concat :
    (docs : List (Bytes × RuleDoc)) (g : Bytes → Severity) (ids : List Bytes) (id : Bytes)
    → described docs g (ids ++ id ∷ [])
      ≡ described docs g ids ++ descriptor docs id (sarif_level (g id)) ∷ []
described-concat docs g [] id = refl
described-concat docs g (r ∷ ids) id =
    ap (◌∷◌ (descriptor docs r (sarif_level (g r)))) (described-concat docs g ids id)

length-described :
    (docs : List (Bytes × RuleDoc)) (g : Bytes → Severity) (ids : List Bytes)
    → length (described docs g ids) ≡ length ids
length-described docs g [] = refl
length-described docs g (r ∷ ids) = ap suc (length-described docs g ids)

-- An id that is not in a list is not one that is.
other_id :
    (id r : Bytes) (ids : List Bytes)
    → any (eq_bytes id) ids ≡ true
    → any (eq_bytes r) ids ≡ false
    → eq_bytes id r ≡ false
other_id id r ids k n = elim (Bool-cases (eq_bytes id r)) [
  | inl e ↦ let no : any (eq_bytes id) ids ≡ false = rw ((eq_bytes_iff id r).0 e) n in absurd cc
  | inr e ↦ e
]

module _ (docs : List (Bytes × RuleDoc)) (before : List FileFinding) (ids : List Bytes)
    (cat : Catalog) (f : FileFinding) (l : Lists docs before ids cat) where
  -- The severities behind one more finding.
  now-ext :
      (r : Bytes)
      → with_finding f.finding.rule f.finding.severity (λ r. worst r before) r
        ≡ worst r (before ++ f ∷ [])
  now-ext r = sym (worst-concat r before f)

  Lists-known :
      any (eq_bytes f.finding.rule) ids ≡ true
      → Lists docs (before ++ f ∷ []) ids (catalog_step docs cat f)
  unfolding catalog_step
  Lists-known k =
      let id = f.finding.rule in
      let s = f.finding.severity in
      let p = position_of-some id ids k in
      let found = l.index id ∙ p.1 in
      let raise = raise_level-described docs (λ r. worst r before) id s ids p.0 p.1 l.distinct in
      let now =
        described-ext docs (with_finding id s (λ r. worst r before))
          (λ r. worst r (before ++ f ∷ [])) ids now-ext in
      rw (found, catalog_step)
        (record {
          rules = ap (raise_level (sarif_level s) p.0) l.rules ∙ raise ∙ now;
          index = l.index;
          distinct = l.distinct;
          unknown = λ r n. rw (worst-concat r before f, other_id id r ids k n) (l.unknown r n);
        })

  Lists-new :
      any (eq_bytes f.finding.rule) ids ≡ false
      → Lists docs (before ++ f ∷ []) (ids ++ f.finding.rule ∷ []) (catalog_step docs cat f)
  unfolding catalog_step
  Lists-new n =
      let id = f.finding.rule in
      let s = f.finding.severity in
      let found = l.index id ∙ position_of-none id ids n in
      let next : Bytes → Severity = λ r. worst r (before ++ f ∷ []) in
      let own : next id ≡ s =
        worst-concat id before f ∙ rw (eq_bytes_refl id, l.unknown id n) (worse_info s) in
      let other = described-other docs (λ r. worst r before) id s ids n in
      let now = described-ext docs (with_finding id s (λ r. worst r before)) next ids now-ext in
      let size = ap length l.rules ∙ length-described docs (λ r. worst r before) ids in
      rw (found, catalog_step)
        (record {
          rules =
              ap (λ ds. ds ++ descriptor docs id (sarif_level s) ∷ []) (l.rules ∙ other ∙ now)
              ∙ ap (λ t. described docs next ids ++ descriptor docs id (sarif_level t) ∷ [])
                  (sym own)
              ∙ sym (described-concat docs next ids id);
          index = λ r.
              ap (λ o. if eq_bytes id r then some (length cat.rules) else o) (l.index r)
              ∙ ap (λ k. if eq_bytes id r then some k else position_of r ids) size
              ∙ sym (position_of-concat r id ids n);
          distinct = is_distinct-concat id ids n l.distinct;
          unknown = λ r u.
              let split : (any (eq_bytes r) ids || (eq_bytes r id || false)) ≡ false =
                sym (any-append (eq_bytes r) ids (id ∷ [])) ∙ u in
              let far : eq_bytes id r ≡ false = eq_bytes_sym id r ∙ ground (arith, split) in
              rw (worst-concat r before f, far) (l.unknown r (ground (arith, split)));
        })

-- The rules of the findings, behind those that are known.
grown : List Bytes → List FileFinding → List Bytes
grown ids [] = ids
grown ids (f ∷ fs) =
    let known = grown ids fs in
    let more = grown (ids ++ f.finding.rule ∷ []) fs in
    if any (eq_bytes f.finding.rule) ids then known else more

catalog_from-Lists :
    (docs : List (Bytes × RuleDoc)) (before : List FileFinding) (ids : List Bytes) (cat : Catalog)
    (fs : List FileFinding)
    → Lists docs before ids cat
    → Lists docs (before ++ fs) (grown ids fs) (catalog_from docs cat fs)
unfolding catalog_from grown
catalog_from-Lists docs before ids cat [] l = rw (append-nil before) l
catalog_from-Lists docs before ids cat (f ∷ fs) l =
    let step = catalog_step docs cat f in
    subst (λ b. Lists docs b (grown ids (f ∷ fs)) (catalog_from docs step fs))
      (append_assoc before (f ∷ []) fs)
      (elim (Bool-cases (any (eq_bytes f.finding.rule) ids)) [
        | inl e ↦
            let known = Lists-known docs before ids cat f l e in
            rw e (catalog_from-Lists docs (before ++ f ∷ []) ids step fs known)
        | inr e ↦
            let new = Lists-new docs before ids cat f l e in
            let more = ids ++ f.finding.rule ∷ [] in
            rw e (catalog_from-Lists docs (before ++ f ∷ []) more step fs new)
      ])

-- Those that are not among the first ones.
fresh : List Bytes → List Bytes → List Bytes
fresh ids [] = []
fresh ids (x ∷ xs) = let rest = fresh ids xs in if any (eq_bytes x) ids then rest else x ∷ rest

fresh-nil : (xs : List Bytes) → fresh [] xs ≡ xs
unfolding fresh
fresh-nil [] = refl
fresh-nil (x ∷ xs) = ap (◌∷◌ x) (fresh-nil xs)

fresh-known :
    (id : Bytes) (ids xs : List Bytes)
    → any (eq_bytes id) ids ≡ true
    → fresh ids (without id xs) ≡ fresh ids xs
unfolding fresh
fresh-known id ids [] k = refl
fresh-known id ids (x ∷ xs) k = elim (Bool-cases (eq_bytes x id)) [
  | inl e ↦
      let there : any (eq_bytes x) ids ≡ true = rw ((eq_bytes_iff x id).0 e) k in
      rw (e, there) (fresh-known id ids xs k)
  | inr e ↦ rw (e, fresh-known id ids xs k)
]

fresh-new :
    (id : Bytes) (ids xs : List Bytes) → fresh (ids ++ id ∷ []) xs ≡ fresh ids (without id xs)
unfolding fresh
fresh-new id ids [] = refl
fresh-new id ids (x ∷ xs) =
    let split = any-append (eq_bytes x) ids (id ∷ []) in
    let rest = fresh-new id ids xs in
    elim (Bool-cases (eq_bytes x id)) [
      | inl e ↦
          let there : any (eq_bytes x) (ids ++ id ∷ []) ≡ true = split ∙ ground (arith, e) in
          rw (there, e) rest
      | inr e ↦
          let same : any (eq_bytes x) (ids ++ id ∷ []) ≡ any (eq_bytes x) ids =
            split ∙ ground (arith, e) in
          rw (same, e, rest)
    ]

grown-fresh :
    (ids : List Bytes) (fs : List FileFinding) → grown ids fs ≡ ids ++ fresh ids (rule_ids fs)
unfolding grown fresh
grown-fresh ids [] = sym (append-nil ids)
grown-fresh ids (f ∷ fs) = elim (Bool-cases (any (eq_bytes f.finding.rule) ids)) [
  | inl e ↦ rw (e, fresh-known f.finding.rule ids (rule_ids fs) e) (grown-fresh ids fs)
  | inr e ↦ rw e (
      grown-fresh (ids ++ f.finding.rule ∷ []) fs
      ∙ append_assoc ids (f.finding.rule ∷ []) _
      ∙ ap (λ l. ids ++ f.finding.rule ∷ l) (fresh-new f.finding.rule ids (rule_ids fs)))
]

-- The catalog lists the rules of all findings, each once, in the order in which they first appear, each
-- with the level of the most severe of its findings.
pub catalog-described :
    (docs : List (Bytes × RuleDoc)) (all : List FileFinding)
    → Lists docs all (rule_ids all) (catalog_from docs no_rules all)
unfolding index_of
catalog-described docs all =
    let start : Lists docs [] [] no_rules = record {
      rules = refl;
      index = λ r. refl;
      distinct = refl;
      unknown = λ r n. refl;
    } in
    subst (λ ids. Lists docs all ids (catalog_from docs no_rules all))
      (grown-fresh [] all ∙ fresh-nil (rule_ids all))
      (catalog_from-Lists docs [] [] no_rules all start)
