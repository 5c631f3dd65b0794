-- ===== src/Rules/Conditions/Fresh.antt =====
-- The ids of search conditions: how large they are, and what the keywords do that open or close one.
use dbopt.Base.{
  ℕ, ◌+◌, ◌≤◌, ◌<◌, ◌≡◌, refl, true, inl, inr, ◌⊎◌, List, [], ◌∷◌, leb, u32, all, if◌then◌else◌,
  if_both, arith,
}
use dbopt.Tokens.{Token}
use dbopt.Rules.{is_word_kind}
use dbopt.Rules.Conditions.{
  Frame, Walk, Marked, push_frame, pop_frame, end_statement, open_condition, close_condition,
  read_word, mark,
}
use dbopt.Rules.Conditions.Groups.{read_word-cases}

-- No frame holds an id that was not given out yet.
pub record Fits (w : Walk) : Type 0 where
  pub top : w.top.cond ≤ w.next_id
  pub below : all (λ f. leb f.cond w.next_id) w.below ≡ true

-- What a round of the loop keeps, with how many ids it gives out.
pub record Steps (w v : Walk) : Type 0 where
  pub fits : Fits v
  pub up : w.next_id ≤ v.next_id
  pub by_one : v.next_id ≤ w.next_id + 1

Fits-mono :
    (n m : ℕ) (fs : List Frame)
    → n ≤ m
    → all (λ f. leb f.cond n) fs ≡ true
    → all (λ f. leb f.cond m) fs ≡ true
Fits-mono n m [] le h = refl
Fits-mono n m (f ∷ fs) le h =
    let rest = Fits-mono n m fs le (ground (arith, h)) in ground (arith, rest, h, le)

-- A round that gives out no id.
same_ids :
    (w v : Walk)
    → Fits w
    → v.next_id ≡ w.next_id
    → v.below ≡ w.below
    → v.top.cond ≤ w.next_id
    → Steps w v
same_ids w v f n b t = record {
  fits = record { top = omega (arith, n, t); below = rw (n, b) f.below };
  up = omega (arith, n);
  by_one = omega (arith, n);
}

open_condition-Steps : (w : Walk) → Fits w → w.next_id + 1 < 4294967296 → Steps w (open_condition w)
unfolding open_condition
open_condition-Steps w f h =
    let id : u32 (w.next_id + 1) ≡ w.next_id + 1 = omega (arith, h) in
    record {
      fits = record {
        top = omega (arith, id);
        below = Fits-mono w.next_id (u32 (w.next_id + 1)) w.below (omega (arith, id)) f.below;
      };
      up = omega (arith, id);
      by_one = omega (arith, id);
    }

pub close_condition-cond :
    (tokens : List Token) (i : ℕ) (top : Frame) → (close_condition tokens i top).cond ≡ 0
unfolding close_condition
close_condition-cond tokens i top = search (if_both (λ (f : Frame). f.cond ≡ 0)) depth 8

read_word-Steps :
    (tokens : List Token) (i : ℕ) (w : Walk)
    → Fits w
    → w.next_id + 1 < 4294967296
    → Steps w (read_word tokens i w)
read_word-Steps tokens i w f h =
    read_word-cases (Steps w) tokens i w (same_ids w _ f refl refl f.top)
      (same_ids w _ f refl refl f.top) (same_ids w _ f refl refl (omega arith))
      (open_condition-Steps w f h)
      (same_ids w _ f refl refl (omega (arith, close_condition-cond tokens i w.top)))
      (same_ids w w f refl refl f.top)

popped-Steps :
    (w : Walk) (fs : List Frame)
    → Fits w
    → all (λ f. leb f.cond w.next_id) fs ≡ true
    → Steps w (elim fs [ [] ↦ w | g ∷ gs ↦ record w { top = g; below = gs } ])
popped-Steps w [] f h = same_ids w w f refl refl f.top
popped-Steps w (g ∷ gs) f h = record {
  fits = record { top = ground (arith, h); below = ground (arith, h) };
  up = omega arith;
  by_one = omega arith;
}

pop_frame-Steps : (w : Walk) → Fits w → Steps w (pop_frame w)
unfolding pop_frame
pop_frame-Steps w f = popped-Steps w w.below f f.below

push_frame-Steps : (w : Walk) → Fits w → Steps w (push_frame w)
unfolding push_frame
push_frame-Steps w f = record {
  fits = record { top = f.top; below = ground (arith, f.top, f.below) };
  up = omega arith;
  by_one = omega arith;
}

end_statement-Steps : (w : Walk) → Fits w → Steps w (end_statement w)
unfolding end_statement
end_statement-Steps w f = same_ids w _ f refl refl (omega arith)

-- What a round leaves, and that its entry was given out.
pub record Marks (w : Walk) (m : Marked) : Type 0 where
  pub steps : Steps w m.walk
  pub id : m.id ≤ m.walk.next_id

top-Marks : (w v : Walk) → Steps w v → Marks w (record { walk = v; id = v.top.cond })
top-Marks w v s = record { steps = s; id = s.fits.top }

abbrev word_walk : List Token → ℕ → Token → Walk → Walk
word_walk tokens i t w = if is_word_kind t.kind then read_word tokens i w else w

pub mark-cases :
    (P : Marked → Type 0) (tokens : List Token) (i : ℕ) (t : Token) (w : Walk)
    → P (record { walk = w; id = 0 })
    → P (record { walk = push_frame w; id = w.top.cond })
    → P (record { walk = pop_frame w; id = (pop_frame w).top.cond })
    → P (record { walk = end_statement w; id = 0 })
    → ((v : Walk) → (v ≡ w) ⊎ (v ≡ read_word tokens i w) → P (record { walk = v; id = v.top.cond }))
    → P (mark tokens i t w)
unfolding mark
mark-cases P tokens i t w skip pushed popped ended read =
    let word : P
        (record { walk = word_walk tokens i t w; id = (word_walk tokens i t w).top.cond }) =
      read (word_walk tokens i t w) (
        if_both (λ v. (v ≡ w) ⊎ (v ≡ read_word tokens i w)) (is_word_kind t.kind)
          (read_word tokens i w) w (inr refl) (inl refl)) in
    search (if_both P, skip, pushed, popped, ended, word) depth 8

pub mark-Marks :
    (tokens : List Token) (i : ℕ) (t : Token) (w : Walk)
    → Fits w
    → w.next_id + 1 < 4294967296
    → Marks w (mark tokens i t w)
mark-Marks tokens i t w f h =
    let kept = same_ids w w f refl refl f.top in
    let pushed = push_frame-Steps w f in
    mark-cases (Marks w) tokens i t w (record { steps = kept; id = omega arith })
      (record { steps = pushed; id = omega (arith, f.top, pushed.up) })
      (top-Marks w (pop_frame w) (pop_frame-Steps w f))
      (record { steps = end_statement-Steps w f; id = omega arith })
      λ v e. elim e [
        | inl q ↦ rw q (top-Marks w w kept)
        | inr q ↦ rw q (top-Marks w (read_word tokens i w) (read_word-Steps tokens i w f h))
      ]
