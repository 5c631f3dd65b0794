-- ===== src/Order.antt =====
-- Orderings of Rust's standard library, and its stable sort `slice::sort_by`.
pub mod Laws
use dbopt.Base.{ℕ, Bool, List, [], ◌∷◌, ltb, ◌==◌, if◌then◌else◌}
use dbopt.Base.Bytes.{Bytes}

pub data Cmp : Type 0 where
  lt eq gt : Cmp

-- Ordering::then
unfoldable pub then_by : Cmp → Cmp → Cmp
then_by lt c = lt
then_by eq c = c
then_by gt c = gt

unfoldable pub compare_nat : ℕ → ℕ → Cmp
compare_nat a b = if ltb a b then lt else if a == b then eq else gt

-- str::cmp: by the bytes, a prefix first.
unfoldable pub compare_bytes : Bytes → Bytes → Cmp
unfolding compare_nat then_by
compare_bytes [] [] = eq
compare_bytes [] (b ∷ bs) = lt
compare_bytes (a ∷ xs) [] = gt
compare_bytes (a ∷ xs) (b ∷ ys) = then_by (compare_nat a b) (compare_bytes xs ys)

abbrev pub is_gt : Cmp → Bool
is_gt gt = Bool.true
is_gt lt = Bool.false
is_gt eq = Bool.false

module _ {ℓ} {A : Type ℓ} (cmp : A → A → Cmp) where
  unfoldable pub insert : A → List A → List A
  insert x [] = x ∷ []
  insert x (y ∷ ys) = let later = y ∷ insert x ys in if is_gt (cmp x y) then later else x ∷ y ∷ ys

  -- An element goes behind those that it is greater than, and before its equals.
  unfoldable pub sort_by : List A → List A
  unfolding insert
  sort_by [] = []
  sort_by (x ∷ xs) = insert x (sort_by xs)
