-- ===== src/Order/Laws.antt =====
-- `sort_by` sorts, and keeps what it sorts.
use mathlib.Core.List.{Perm}
use mathlib.Core.List.Perm
use dbopt.Base.{
  ℕ, suc, ◌≡◌, refl, ap, ◌∙◌, Bool, true, false, ◌||◌, List, [], ◌∷◌, if_cases, length, any, arith,
}
use dbopt.Base.Bytes.{Bytes}
use dbopt.Order.{Cmp, lt, eq, gt, then_by, compare_nat, compare_bytes, is_gt, insert, sort_by}

-- The ordering seen from the other side.
abbrev pub flip : Cmp → Cmp
flip lt = gt
flip eq = eq
flip gt = lt

pub compare_nat-flip : (a b : ℕ) → compare_nat b a ≡ flip (compare_nat a b)
unfolding compare_nat
compare_nat-flip a b = ground arith

pub then_by-flip :
    (c c' d d' : Cmp) → c' ≡ flip c → d' ≡ flip d → then_by c' d' ≡ flip (then_by c d)
unfolding then_by
then_by-flip c c' d d' e f = ground arith

pub compare_bytes-flip : (a b : Bytes) → compare_bytes b a ≡ flip (compare_bytes a b)
unfolding compare_bytes
compare_bytes-flip [] [] = refl
compare_bytes-flip [] (b ∷ bs) = refl
compare_bytes-flip (a ∷ xs) [] = refl
compare_bytes-flip (a ∷ xs) (b ∷ ys) =
    then_by-flip (compare_nat a b) _ (compare_bytes xs ys) _ (compare_nat-flip a b)
      (compare_bytes-flip xs ys)

module _ {ℓ} {A : Type ℓ} (cmp : A → A → Cmp) where
  -- No element stands in front of a smaller one that follows it at once.
  abbrev pub IsSorted : List A → Type 0
  IsSorted [] = Unit
  IsSorted (x ∷ []) = Unit
  IsSorted (x ∷ y ∷ ys) = (is_gt (cmp x y) ≡ false) × IsSorted (y ∷ ys)

  module _ (total : (x y : A) → cmp y x ≡ flip (cmp x y)) where
    le_of_gt : (x y : A) → is_gt (cmp x y) ≡ true → is_gt (cmp y x) ≡ false
    le_of_gt x y h = ground (arith, total x y)

    insert-IsSorted : (x : A) (ys : List A) → IsSorted ys → IsSorted (insert cmp x ys)
    unfolding insert
    insert-IsSorted x [] h = tt
    insert-IsSorted x (y ∷ []) h =
        if_cases IsSorted (is_gt (cmp x y)) _ _ (λ e. (le_of_gt x y e, tt)) (λ e. (e, tt))
    insert-IsSorted x (y ∷ z ∷ ys) h =
        if_cases IsSorted (is_gt (cmp x y)) _ _
          (λ e.
            if_cases (λ l. IsSorted l → IsSorted (y ∷ l)) (is_gt (cmp x z)) _ _ (λ f s. (h.0, s))
              (λ f s. (le_of_gt x y e, s)) (insert-IsSorted x (z ∷ ys) h.1))
          (λ e. (e, h))

    pub sort_by-IsSorted : (xs : List A) → IsSorted (sort_by cmp xs)
    unfolding sort_by
    sort_by-IsSorted [] = tt
    sort_by-IsSorted (x ∷ xs) = insert-IsSorted x (sort_by cmp xs) (sort_by-IsSorted xs)

  insert-perm : (x : A) (ys : List A) → Perm (insert cmp x ys) (x ∷ ys)
  unfolding insert
  insert-perm x [] = Perm.refl (x ∷ [])
  insert-perm x (y ∷ ys) =
      if_cases (λ l. Perm l (x ∷ y ∷ ys)) (is_gt (cmp x y)) _ _
        (λ _. Perm.trans (Perm.cons y (insert-perm x ys)) (Perm.swap x y ys))
        (λ _. Perm.refl (x ∷ y ∷ ys))

  pub sort_by-perm : (xs : List A) → Perm (sort_by cmp xs) xs
  unfolding sort_by
  sort_by-perm [] = Perm.refl []
  sort_by-perm (x ∷ xs) =
      Perm.trans (insert-perm x (sort_by cmp xs)) (Perm.cons x (sort_by-perm xs))

  any-insert : (p : A → Bool) (x : A) (ys : List A) → any p (insert cmp x ys) ≡ (p x || any p ys)
  unfolding insert
  any-insert p x [] = refl
  any-insert p x (y ∷ ys) = ground (arith, any-insert p x ys)

  pub any-sort_by : (p : A → Bool) (xs : List A) → any p (sort_by cmp xs) ≡ any p xs
  unfolding sort_by
  any-sort_by p [] = refl
  any-sort_by p (x ∷ xs) = any-insert p x (sort_by cmp xs) ∙ ap (λ b. p x || b) (any-sort_by p xs)

  length-insert : (x : A) (ys : List A) → length (insert cmp x ys) ≡ suc (length ys)
  unfolding insert
  length-insert x [] = refl
  length-insert x (y ∷ ys) = ground (arith, length-insert x ys)

  pub length-sort_by : (xs : List A) → length (sort_by cmp xs) ≡ length xs
  unfolding sort_by
  length-sort_by [] = refl
  length-sort_by (x ∷ xs) = length-insert x (sort_by cmp xs) ∙ ap suc (length-sort_by xs)
