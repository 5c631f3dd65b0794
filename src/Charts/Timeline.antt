-- ===== src/Charts/Timeline.antt =====
-- The timeline against the counts of the findings of each line.
use dbopt.Base.{
  ℕ, zero, suc, ◌+◌, ◌-◌, ◌≤◌, ◌<◌, ◌≡◌, refl, sym, ap, ◌∙◌, Bool, true, false, ◌||◌, ◌&&◌,
  Bool-cases, List, [], ◌∷◌, ◌++◌, ◌⊎◌, map, ltb, ◌==◌, if◌then◌else◌, u32, length, if_cases,
  append_assoc, append-nil, inl, inr, arith,
}
use dbopt.Base.Bytes.{Bytes}
use dbopt.Findings.{Severity, info, warning, error, critical, Finding}
use dbopt.Charts.{
  SeverityBucket, count_severity, count_at, line_or_first, count_finding, count_findings,
  empty_buckets, total_lines, severity_timeline,
}

abbrev eq_severity : Severity → Severity → Bool
eq_severity critical critical = true
eq_severity error error = true
eq_severity warning warning = true
eq_severity info info = true
eq_severity _ _ = false

-- How many findings of a severity stand at a line; one without a place counts for the first line.
abbrev pub tally : ℕ → Severity → List Finding → ℕ
tally line s [] = 0
tally line s (f ∷ fs) =
    (if line_or_first f == line && eq_severity f.severity s then 1 else 0) + tally line s fs

abbrev pub bucket_of : List Finding → ℕ → SeverityBucket
bucket_of fs line = record {
  line = line;
  critical_count = u32 (tally line critical fs);
  error_count = u32 (tally line error fs);
  warning_count = u32 (tally line warning fs);
  info_count = u32 (tally line info fs);
}

-- The numbers from one on.
abbrev pub numbers : ℕ → ℕ → List ℕ
numbers first zero = []
numbers first (suc n) = first ∷ numbers (first + 1) n

tally-concat :
    (line : ℕ) (s : Severity) (fs : List Finding) (f : Finding)
    → tally line s (fs ++ f ∷ [])
      ≡ tally line s fs + (if line_or_first f == line && eq_severity f.severity s then 1 else 0)
tally-concat line s [] f = omega arith
tally-concat line s (x ∷ fs) f = omega (arith, tally-concat line s fs f)

u32-suc : (n : ℕ) → u32 (u32 n + 1) ≡ u32 (n + 1)
u32-suc n = omega arith

-- A bucket with a finding more.
abbrev counted : ℕ → Severity → (ℕ → SeverityBucket) → ℕ → SeverityBucket
counted l s g line = if l == line then count_severity s (g line) else g line

abbrev tallies : ℕ → ℕ → ℕ → ℕ → ℕ → SeverityBucket
tallies line c e w i = record {
  line = line;
  critical_count = u32 c;
  error_count = u32 e;
  warning_count = u32 w;
  info_count = u32 i;
}

abbrev one_if : Bool → ℕ
one_if b = if b then 1 else 0

count_severity-tallies :
    (here : Bool) (s : Severity) (line c e w i : ℕ)
    → tallies line
        (c + one_if (here && eq_severity s critical))
        (e + one_if (here && eq_severity s error))
        (w + one_if (here && eq_severity s warning))
        (i + one_if (here && eq_severity s info))
      ≡ (if here then count_severity s (tallies line c e w i) else tallies line c e w i)
unfolding count_severity
count_severity-tallies false s line c e w i = ground arith
count_severity-tallies true critical line c e w i = ground (arith, u32-suc c)
count_severity-tallies true error line c e w i = ground (arith, u32-suc e)
count_severity-tallies true warning line c e w i = ground (arith, u32-suc w)
count_severity-tallies true info line c e w i = ground (arith, u32-suc i)

bucket_of-concat :
    (fs : List Finding) (f : Finding) (line : ℕ)
    → bucket_of (fs ++ f ∷ []) line ≡ counted (line_or_first f) f.severity (bucket_of fs) line
bucket_of-concat fs f line =
    rw
      (
        tally-concat line critical fs f,
        tally-concat line error fs f,
        tally-concat line warning fs f,
        tally-concat line info fs f,
      )
      (count_severity-tallies (line_or_first f == line) f.severity line (tally line critical fs)
        (tally line error fs) (tally line warning fs) (tally line info fs))

-- Outside of the lines nothing is counted.
map-counted :
    (l : ℕ) (s : Severity) (g : ℕ → SeverityBucket) (first n : ℕ)
    → (l < first) ⊎ (first + n ≤ l)
    → map (counted l s g) (numbers first n) ≡ map g (numbers first n)
map-counted l s g first zero h = refl
map-counted l s g first (suc n) h =
    let other : (l == first) ≡ false = ground (arith, h) in
    let still : (l < first + 1) ⊎ (first + 1 + n ≤ l) = elim h [
      | inl a ↦ inl (omega arith)
      | inr a ↦ inr (omega arith)
    ] in
    rw (other, map-counted l s g (first + 1) n still)

count_at-numbers :
    (l : ℕ) (s : Severity) (g : ℕ → SeverityBucket) (first n : ℕ)
    → first ≤ l
    → count_at s (l - first) (map g (numbers first n)) ≡ map (counted l s g) (numbers first n)
unfolding count_at
count_at-numbers l s g first zero h = refl
count_at-numbers l s g first (suc n) h = elim (Bool-cases (l == first)) [
  | inl e ↦
      let same : l ≡ first = ground (arith, e) in
      let here : l - first ≡ zero = omega arith in
      rw (here, e, map-counted l s g (first + 1) n (inl (omega arith)))
  | inr e ↦
      let later : l - first ≡ suc (l - (first + 1)) = ground (arith, e) in
      rw (later, e, count_at-numbers l s g (first + 1) n (ground (arith, e)))
]

length-numbers : (g : ℕ → SeverityBucket) (first n : ℕ) → length (map g (numbers first n)) ≡ n
length-numbers g first zero = refl
length-numbers g first (suc n) = ap suc (length-numbers g (first + 1) n)

map-eq : (g h : ℕ → SeverityBucket) (xs : List ℕ) → ((x : ℕ) → g x ≡ h x) → map g xs ≡ map h xs
map-eq g h [] e = refl
map-eq g h (x ∷ xs) e = rw (e x, map-eq g h xs e)

-- A line outside of 1 to n.
outside : (l n : ℕ) → (l == 0 || ltb n l) ≡ true → (l < 1) ⊎ (1 + n ≤ l)
outside l n h = elim (Bool-cases (l == 0)) [
  | inl e ↦ inl (ground (arith, e))
  | inr e ↦ inr (ground (arith, e, h))
]

count_finding-counted :
    (g : ℕ → SeverityBucket) (n : ℕ) (f : Finding)
    → count_finding (map g (numbers 1 n)) f
      ≡ map (counted (line_or_first f) f.severity g) (numbers 1 n)
unfolding count_finding
count_finding-counted g n f =
    let l = line_or_first f in
    let bs = map g (numbers 1 n) in
    ap (λ k. if l == 0 || ltb k l then bs else count_at f.severity (l - 1) bs)
      (length-numbers g 1 n)
    ∙ if_cases (λ out. out ≡ map (counted l f.severity g) (numbers 1 n)) (l == 0 || ltb n l) bs
        (count_at f.severity (l - 1) bs) (λ e. sym (map-counted l f.severity g 1 n (outside l n e)))
        (λ e. count_at-numbers l f.severity g 1 n (ground (arith, e)))

count_findings-bucket_of :
    (before : List Finding) (n : ℕ) (fs : List Finding)
    → count_findings (map (bucket_of before) (numbers 1 n)) fs
      ≡ map (bucket_of (before ++ fs)) (numbers 1 n)
unfolding count_findings
count_findings-bucket_of before n [] = rw (append-nil before)
count_findings-bucket_of before n (f ∷ fs) =
    ap (λ bs. count_findings bs fs)
      (count_finding-counted (bucket_of before) n f
        ∙ sym (map-eq _ _ (numbers 1 n) (bucket_of-concat before f)))
    ∙ count_findings-bucket_of (before ++ f ∷ []) n fs
    ∙ ap (λ all. map (bucket_of all) (numbers 1 n)) (append_assoc before (f ∷ []) fs)

empty_buckets-numbers : (first n : ℕ) → empty_buckets first n ≡ map (bucket_of []) (numbers first n)
empty_buckets-numbers first zero = refl
empty_buckets-numbers first (suc n) = rw (empty_buckets-numbers (first + 1) n)

-- The timeline has one bucket for each line of the text, in order, and in it how many findings of each
-- severity stand at that line, modulo 2^32; findings of other lines are nowhere.
pub severity_timeline-bucket_of :
    (src : Bytes) (fs : List Finding)
    → severity_timeline src fs ≡ map (bucket_of fs) (numbers 1 (total_lines src))
unfolding severity_timeline
severity_timeline-bucket_of src fs =
    ap (λ bs. count_findings bs fs) (empty_buckets-numbers 1 (total_lines src))
    ∙ count_findings-bucket_of [] (total_lines src) fs
