-- ===== src/Rules/Conditions/Ids.antt =====
-- The list of the ids of search conditions.
use dbopt.Base.{
  ℕ, zero, suc, ◌+◌, ◌≤◌, ◌<◌, ◌≡◌, refl, ap, ◌∙◌, sym, true, some, some_inj, List, [], ◌∷◌, length,
  get_elem?, arith,
}
use dbopt.Tokens.{Token}
use dbopt.Rules.Conditions.{Walk, first_walk, open_condition, mark, ids_from, search_condition_ids}
use dbopt.Rules.Conditions.Fresh.{Fits, mark-Marks}
use dbopt.Rules.Conditions.Words.{is_opener, mark-opener}

length-ids_from :
    (tokens : List Token) (i : ℕ) (w : Walk) (ts : List Token)
    → length (ids_from tokens i w ts) ≡ length ts
unfolding ids_from
length-ids_from tokens i w [] = refl
length-ids_from tokens i w (t ∷ ts) =
    ap suc (length-ids_from tokens (i + 1) (mark tokens i t w).walk ts)

-- The rest of the list starts at this place.
abbrev Rest : List Token → ℕ → List Token → Type 0
Rest tokens i ts = (p : ℕ) → get_elem? ts p ≡ get_elem? tokens (i + p)

Rest-tail :
    (tokens : List Token) (i : ℕ) (t : Token) (ts : List Token)
    → Rest tokens i (t ∷ ts)
    → Rest tokens (i + 1) ts
Rest-tail tokens i t ts r p = r (suc p) ∙ ap (get_elem? tokens) (omega arith)

Rest-head :
    (tokens : List Token) (i : ℕ) (t : Token) (ts : List Token)
    → Rest tokens i (t ∷ ts)
    → get_elem? tokens i ≡ some t
Rest-head tokens i t ts r = ap (get_elem? tokens) (omega arith) ∙ sym (r 0)

-- An id is not larger than what was given out before and one more for each token up to its own.
id_bound :
    (tokens : List Token) (i : ℕ) (w : Walk) (ts : List Token) (p a : ℕ)
    → Fits w
    → w.next_id + length ts < 4294967296
    → get_elem? (ids_from tokens i w ts) p ≡ some a
    → a ≤ w.next_id + p + 1
unfolding ids_from
id_bound tokens i w [] p a f h e = absurd cc
id_bound tokens i w (t ∷ ts) zero a f h e =
    let m = mark-Marks tokens i t w f (omega (arith, h)) in
    let same = some_inj (mark tokens i t w).id a e in omega (arith, same, m.id, m.steps.by_one)
id_bound tokens i w (t ∷ ts) (suc p) a f h e =
    let m = mark-Marks tokens i t w f (omega (arith, h)) in
    let rest =
      id_bound tokens (i + 1) (mark tokens i t w).walk ts p a m.steps.fits
        (omega (arith, h, m.steps.by_one)) e in
    omega (arith, rest, m.steps.by_one)

-- An opener gets an id that is larger than all that were given out before.
opener_above :
    (tokens : List Token) (i : ℕ) (w : Walk) (ts : List Token) (p b : ℕ)
    → Rest tokens i ts
    → Fits w
    → w.next_id + length ts < 4294967296
    → is_opener tokens (i + p) ≡ true
    → get_elem? (ids_from tokens i w ts) p ≡ some b
    → w.next_id < b
unfolding ids_from open_condition
opener_above tokens i w [] p b r f h o e = absurd cc
opener_above tokens i w (t ∷ ts) zero b r f h o e =
    let first =
      mark-opener tokens i t (Rest-head tokens i t ts r) w
        (ap (is_opener tokens) (omega arith) ∙ o) in
    let same : (open_condition w).top.cond ≡ b =
      some_inj _ b (ap (λ m. some m.id) (sym first) ∙ e) in
    omega (arith, h, same)
opener_above tokens i w (t ∷ ts) (suc p) b r f h o e =
    let m = mark-Marks tokens i t w f (omega (arith, h)) in
    let rest =
      opener_above tokens (i + 1) (mark tokens i t w).walk ts p b (Rest-tail tokens i t ts r)
        m.steps.fits (omega (arith, h, m.steps.by_one)) (ap (is_opener tokens) (omega arith) ∙ o)
        e in
    omega (arith, rest, m.steps.up)

opener_later :
    (tokens : List Token) (i : ℕ) (w : Walk) (ts : List Token) (p q a b : ℕ)
    → Rest tokens i ts
    → Fits w
    → w.next_id + length ts < 4294967296
    → p < q
    → is_opener tokens (i + q) ≡ true
    → get_elem? (ids_from tokens i w ts) p ≡ some a
    → get_elem? (ids_from tokens i w ts) q ≡ some b
    → a < b
unfolding ids_from
opener_later tokens i w [] p q a b r f h lt o x y = absurd cc
opener_later tokens i w (t ∷ ts) p zero a b r f h lt o x y = absurd (omega (arith, lt))
opener_later tokens i w (t ∷ ts) zero (suc q) a b r f h lt o x y =
    let m = mark-Marks tokens i t w f (omega (arith, h)) in
    let same = some_inj (mark tokens i t w).id a x in
    let above =
      opener_above tokens (i + 1) (mark tokens i t w).walk ts q b (Rest-tail tokens i t ts r)
        m.steps.fits (omega (arith, h, m.steps.by_one)) (ap (is_opener tokens) (omega arith) ∙ o)
        y in
    omega (arith, same, above, m.id)
opener_later tokens i w (t ∷ ts) (suc p) (suc q) a b r f h lt o x y =
    let m = mark-Marks tokens i t w f (omega (arith, h)) in
    opener_later tokens (i + 1) (mark tokens i t w).walk ts p q a b (Rest-tail tokens i t ts r)
      m.steps.fits (omega (arith, h, m.steps.by_one)) (omega (arith, lt))
      (ap (is_opener tokens) (omega arith) ∙ o) x y

first-Fits : Fits first_walk
first-Fits = record { top = omega arith; below = refl }

all-Rest : (tokens : List Token) → Rest tokens 0 tokens
all-Rest tokens p = ap (get_elem? tokens) (omega arith)

pub length-search_condition_ids :
    (tokens : List Token) → length (search_condition_ids tokens) ≡ length tokens
unfolding search_condition_ids
length-search_condition_ids tokens = length-ids_from tokens 0 first_walk tokens

-- In a list of less than 2^32 tokens, a WHERE or HAVING gets an id that is larger than that of every
-- token before it, and at most the number of tokens up to it.
pub search_condition_ids-opener :
    (tokens : List Token) (i j a b : ℕ)
    → length tokens < 4294967296
    → is_opener tokens j ≡ true
    → i < j
    → get_elem? (search_condition_ids tokens) i ≡ some a
    → get_elem? (search_condition_ids tokens) j ≡ some b
    → (a < b) × (b ≤ j + 1)
unfolding search_condition_ids
search_condition_ids-opener tokens i j a b h o lt x y = (
  opener_later tokens 0 first_walk tokens i j a b (all-Rest tokens) first-Fits (omega (arith, h)) lt
      (ap (is_opener tokens) (omega arith) ∙ o) x y,
  omega (arith, id_bound tokens 0 first_walk tokens j b first-Fits (omega (arith, h)) y),
)
