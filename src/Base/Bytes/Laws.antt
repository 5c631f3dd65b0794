-- ===== src/Base/Bytes/Laws.antt =====
-- What the Boolean tests on texts decide.
use Prim.Native.Nat.{ℕ}
use mathlib.Core.Path.{◌≡◌, refl, ap}
use mathlib.Core.Logic.{◌↔◌}
use mathlib.Core.Bool.{true}
use mathlib.Core.List.{[], ◌∷◌, ◌++◌}
use native.Mathlib.Omega.{arith}
use dbopt.Base.Bytes.{Bytes, to_lower, lowercase, eq_bytes, eq_ignore_case, starts_with}

pub eq_bytes_iff : (a b : Bytes) → (eq_bytes a b ≡ true) ↔ (a ≡ b)
unfolding eq_bytes
eq_bytes_iff (x ∷ a) (y ∷ b) = ground (arith, eq_bytes_iff a b)
eq_bytes_iff _ _ = ground arith

pub eq_bytes_refl : (a : Bytes) → eq_bytes a a ≡ true
eq_bytes_refl a = (eq_bytes_iff a a).1 refl

pub lowercase-cons : (x : ℕ) (a : Bytes) → lowercase (x ∷ a) ≡ to_lower x ∷ lowercase a
unfolding lowercase
lowercase-cons x a = refl

pub lowercase-append : (a b : Bytes) → lowercase (a ++ b) ≡ lowercase a ++ lowercase b
unfolding lowercase
lowercase-append [] b = refl
lowercase-append (x ∷ a) b = ap (◌∷◌ (to_lower x)) (lowercase-append a b)

pub to_lower-to_lower : (b : ℕ) → to_lower (to_lower b) ≡ to_lower b
unfolding to_lower
to_lower-to_lower b = ground arith

pub lowercase-lowercase : (a : Bytes) → lowercase (lowercase a) ≡ lowercase a
unfolding lowercase
lowercase-lowercase [] = refl
lowercase-lowercase (x ∷ a) = rw (to_lower-to_lower) (ap (◌∷◌ (to_lower x)) (lowercase-lowercase a))

-- Two texts are equal up to case exactly if their lower-case forms are equal.
pub eq_ignore_case_iff : (a b : Bytes) → (eq_ignore_case a b ≡ true) ↔ (lowercase a ≡ lowercase b)
unfolding eq_ignore_case lowercase
eq_ignore_case_iff (x ∷ a) (y ∷ b) = ground (arith, eq_ignore_case_iff a b)
eq_ignore_case_iff _ _ = ground arith

pub starts_with-append : (p s : Bytes) → starts_with p (p ++ s) ≡ true
unfolding starts_with
starts_with-append [] s = refl
starts_with-append (x ∷ p) s = ground (arith, starts_with-append p s)

pub starts_with_rest : (p s : Bytes) → starts_with p s ≡ true → (rest : Bytes) × (s ≡ p ++ rest)
unfolding starts_with
starts_with_rest [] s h = (s, refl)
starts_with_rest (x ∷ p) [] h = cc
starts_with_rest (x ∷ p) (y ∷ s) h =
    let r = starts_with_rest p s (ground (arith, h)) in (r.0, ground (arith, h, r.1))

pub eq_bytes_sym : (a b : Bytes) → eq_bytes a b ≡ eq_bytes b a
unfolding eq_bytes
eq_bytes_sym [] [] = refl
eq_bytes_sym [] (y ∷ b) = refl
eq_bytes_sym (x ∷ a) [] = refl
eq_bytes_sym (x ∷ a) (y ∷ b) = ground (arith, eq_bytes_sym a b)
