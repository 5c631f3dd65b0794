-- ===== src/Lint/Sarif/Levels.antt =====
-- The levels of SARIF, and the worst severity of a rule.
use dbopt.Base.{◌≡◌, refl, Bool-cases, inl, inr, List, [], ◌∷◌, ◌++◌, ltb, if◌then◌else◌, arith}
use dbopt.Base.Bytes.{Bytes, eq_bytes}
use dbopt.Findings.{Severity, info, warning, error, critical, rank}
use dbopt.Lint.{FileFinding}
use dbopt.Lint.Sarif.{sarif_level, level_rank, raised}

-- The more severe of two, the first one if they are equal.
abbrev pub worse : Severity → Severity → Severity
worse a b = if ltb (rank b) (rank a) then b else a

rank_inj : (a b : Severity) → rank a ≡ rank b → a ≡ b
rank_inj info info h = refl
rank_inj warning warning h = refl
rank_inj error error h = refl
rank_inj critical critical h = refl
rank_inj _ _ h = absurd (omega (arith, h))

worse_swap : (a b c : Severity) → worse (worse a b) c ≡ worse (worse a c) b
worse_swap a b c = ground (arith, rank_inj a b, rank_inj b c, rank_inj a c)

pub worse_info : (a : Severity) → worse info a ≡ a
worse_info info = refl
worse_info warning = refl
worse_info error = refl
worse_info critical = refl

-- The level of the more severe one is the more severe level.
pub raised-worse :
    (a b : Severity) → raised (sarif_level a) (sarif_level b) ≡ sarif_level (worse a b)
unfolding level_rank eq_bytes
raised-worse info info = refl
raised-worse info warning = refl
raised-worse info error = refl
raised-worse info critical = refl
raised-worse warning info = refl
raised-worse warning warning = refl
raised-worse warning error = refl
raised-worse warning critical = refl
raised-worse error info = refl
raised-worse error warning = refl
raised-worse error error = refl
raised-worse error critical = refl
raised-worse critical info = refl
raised-worse critical warning = refl
raised-worse critical error = refl
raised-worse critical critical = refl

-- The worst severity among the findings of a rule.
abbrev pub worst : Bytes → List FileFinding → Severity
worst r [] = info
worst r (f ∷ fs) =
    if eq_bytes f.finding.rule r then worse (worst r fs) f.finding.severity else worst r fs

pub worst-concat :
    (r : Bytes) (fs : List FileFinding) (f : FileFinding)
    → worst r (fs ++ f ∷ [])
      ≡ (if eq_bytes f.finding.rule r then worse (worst r fs) f.finding.severity else worst r fs)
worst-concat r [] f = refl
worst-concat r (g ∷ fs) f =
    let swap = worse_swap (worst r fs) f.finding.severity g.finding.severity in
    elim (Bool-cases (eq_bytes g.finding.rule r)) [
      | inl e ↦ elim (Bool-cases (eq_bytes f.finding.rule r)) [
        | inl d ↦ rw (worst-concat r fs f, e, d) swap
        | inr d ↦ rw (worst-concat r fs f, e, d)
      ]
      | inr e ↦ rw (e) (worst-concat r fs f)
    ]
