-- ===== src/Rules/Conditions/Groups.antt =====
-- Parenthesised groups of tokens, and the search condition around them.
use dbopt.Base.{
  ℕ, zero, suc, ◌+◌, ◌-◌, ◌≡◌, u32, if_both, refl, ap, ◌∙◌, subst, Bool, true, false, not, ◌&&◌,
  Bool-cases, inl, inr, some, List, [], ◌∷◌, ◌++◌, length, get_elem?, if◌then◌else◌, arith,
  append_assoc,
}
use dbopt.Base.Bytes.{codes, eq_bytes}
use dbopt.Base.Bytes.Laws.{eq_bytes_iff}
use dbopt.Tokens.{Token}
use dbopt.Rules.{is_comment_kind}
use dbopt.Rules.Conditions.{
  Frame, Walk, first_walk, push_frame, pop_frame, end_statement, open_condition, read_word, mark,
  close_condition, ids_from, search_condition_ids,
}

abbrev pub is_open : Token → Bool
is_open t = not (is_comment_kind t.kind) && eq_bytes t.text (codes "(")

abbrev pub is_shut : Token → Bool
is_shut t = not (is_comment_kind t.kind) && eq_bytes t.text (codes ")")

-- Do the parentheses of these tokens pair up, with `depth` of them open before?
abbrev pub is_balanced : ℕ → List Token → Bool
is_balanced zero [] = true
is_balanced (suc depth) [] = false
is_balanced zero (t ∷ ts) =
    let opened = is_balanced 1 ts in
    let passed = is_balanced 0 ts in
    if is_open t then opened else if is_shut t then false else passed
is_balanced (suc depth) (t ∷ ts) =
    let opened = is_balanced (suc (suc depth)) ts in
    let shut = is_balanced depth ts in
    let passed = is_balanced (suc depth) ts in
    if is_open t then opened else if is_shut t then shut else passed

-- The variables behind these tokens.
abbrev pub walk_after : List Token → ℕ → Walk → List Token → Walk
walk_after tokens i w [] = w
walk_after tokens i w (t ∷ ts) = walk_after tokens (i + 1) (mark tokens i t w).walk ts

-- What holds on each arm of the chain of tests on a word holds of what it gives.
pub read_word-cases :
    (P : Walk → Type 0) (tokens : List Token) (i : ℕ) (w : Walk)
    → P (record w { top = record w.top { case_depth = u32 (w.top.case_depth + 1) } })
    → P (record w { top = record w.top { case_depth = w.top.case_depth - 1 } })
    → P (record w { top = record w.top { cond = 0 } })
    → P (open_condition w)
    → P (record w { top = close_condition tokens i w.top })
    → P w
    → P (read_word tokens i w)
unfolding read_word
read_word-cases P tokens i w enter leave stop opened shut kept =
    search (if_both P, enter, leave, stop, opened, shut, kept) depth 12

read_word-below : (tokens : List Token) (i : ℕ) (w : Walk) → (read_word tokens i w).below ≡ w.below
unfolding open_condition
read_word-below tokens i w =
    read_word-cases (λ v. v.below ≡ w.below) tokens i w refl refl refl refl refl refl

mark-open :
    (tokens : List Token) (i : ℕ) (t : Token) (w : Walk)
    → is_open t ≡ true
    → mark tokens i t w ≡ record { walk = push_frame w; id = w.top.cond }
unfolding mark
mark-open tokens i t w h = ground (arith, h)

not_open : eq_bytes (codes ")") (codes "(") ≡ false
unfolding eq_bytes
not_open = refl

mark-shut :
    (tokens : List Token) (i : ℕ) (t : Token) (w : Walk)
    → is_shut t ≡ true
    → mark tokens i t w ≡ record { walk = pop_frame w; id = (pop_frame w).top.cond }
unfolding mark
mark-shut tokens i t w h = elim (Bool-cases (eq_bytes t.text (codes ")"))) [
  | inl e ↦
      let text = (eq_bytes_iff t.text (codes ")")).0 e in
      let comment : is_comment_kind t.kind ≡ false = ground (arith, h) in
      let left : eq_bytes t.text (codes "(") ≡ false = rw text (not_open) in rw (comment, left, e)
  | inr e ↦ absurd (ground (arith, h, e))
]

mark-below :
    (tokens : List Token) (i : ℕ) (t : Token) (w : Walk)
    → is_open t ≡ false
    → is_shut t ≡ false
    → (mark tokens i t w).walk.below ≡ w.below
unfolding mark end_statement
mark-below tokens i t w h k = ground (arith, h, k, read_word-below tokens i w)

pushed-below :
    (tokens : List Token) (i : ℕ) (t : Token) (w : Walk) (fs : List Frame)
    → is_open t ≡ true
    → w.below ≡ fs
    → (mark tokens i t w).walk.below ≡ w.top ∷ fs
unfolding push_frame
pushed-below tokens i t w fs o e = rw (mark-open tokens i t w o, e)

popped :
    (tokens : List Token) (i : ℕ) (t : Token) (w : Walk) (f : Frame) (fs : List Frame)
    → is_shut t ≡ true
    → w.below ≡ f ∷ fs
    → mark tokens i t w ≡ record { walk = record w { top = f; below = fs }; id = f.cond }
unfolding pop_frame
popped tokens i t w f fs s e = rw (mark-shut tokens i t w s, e)

-- A frame that stands under those of the parentheses open so far is not touched.
balanced-below :
    (tokens : List Token) (i depth : ℕ) (w : Walk) (inner base : List Frame) (ts : List Token)
    → is_balanced depth ts ≡ true
    → length inner ≡ depth
    → w.below ≡ inner ++ base
    → (walk_after tokens i w ts).below ≡ base
balanced-below tokens i zero w [] base [] h n e = e
balanced-below tokens i zero w (f ∷ fs) base ts h n e = absurd (omega (arith, n))
balanced-below tokens i (suc d) w inner base [] h n e = cc
balanced-below tokens i (suc d) w [] base ts h n e = absurd (omega (arith, n))
balanced-below tokens i zero w [] base (t ∷ ts) h n e = elim (Bool-cases (is_open t)) [
  | inl o ↦
      balanced-below tokens (i + 1) 1 (mark tokens i t w).walk (w.top ∷ []) base ts
        (ground (arith, h, o)) refl (pushed-below tokens i t w base o e)
  | inr o ↦ elim (Bool-cases (is_shut t)) [
    | inl s ↦ absurd (ground (arith, h, o, s))
    | inr s ↦
        balanced-below tokens (i + 1) 0 (mark tokens i t w).walk [] base ts
          (ground (arith, h, o, s)) refl (mark-below tokens i t w o s ∙ e)
  ]
]
balanced-below tokens i (suc d) w (f ∷ fs) base (t ∷ ts) h n e = elim (Bool-cases (is_open t)) [
  | inl o ↦
      balanced-below tokens (i + 1) (suc (suc d)) (mark tokens i t w).walk (w.top ∷ f ∷ fs) base ts
        (ground (arith, h, o)) (omega (arith, n)) (pushed-below tokens i t w (f ∷ fs ++ base) o e)
  | inr o ↦ elim (Bool-cases (is_shut t)) [
    | inl s ↦
        balanced-below tokens (i + 1) d (mark tokens i t w).walk fs base ts
          (ground (arith, h, o, s)) (omega (arith, n))
          (ap (λ m. m.walk.below) (popped tokens i t w f (fs ++ base) s e))
    | inr s ↦
        balanced-below tokens (i + 1) (suc d) (mark tokens i t w).walk (f ∷ fs) base ts
          (ground (arith, h, o, s)) n (mark-below tokens i t w o s ∙ e)
  ]
]

pub walk_after-append :
    (tokens : List Token) (i : ℕ) (w : Walk) (xs ys : List Token)
    → walk_after tokens i w (xs ++ ys)
      ≡ walk_after tokens (i + length xs) (walk_after tokens i w xs) ys
walk_after-append tokens i w [] ys = ap (λ n. walk_after tokens n w ys) (omega arith)
walk_after-append tokens i w (x ∷ xs) ys =
    walk_after-append tokens (i + 1) (mark tokens i x w).walk xs ys
    ∙ ap (λ n. walk_after tokens n (walk_after tokens (i + 1) (mark tokens i x w).walk xs) ys)
        (omega arith)

-- The entry of a token, from the variables before it.
pub ids_from-get :
    (tokens : List Token) (i : ℕ) (w : Walk) (xs : List Token) (t : Token) (ys : List Token)
    → get_elem? (ids_from tokens i w (xs ++ t ∷ ys)) (length xs)
      ≡ some (mark tokens (i + length xs) t (walk_after tokens i w xs)).id
unfolding ids_from
ids_from-get tokens i w [] t ys = ap (λ n. some (mark tokens n t w).id) (omega arith)
ids_from-get tokens i w (x ∷ xs) t ys =
    ids_from-get tokens (i + 1) (mark tokens i x w).walk xs t ys
    ∙ ap (λ n. some (mark tokens n t (walk_after tokens (i + 1) (mark tokens i x w).walk xs)).id)
        (omega arith)

-- The variables at the place behind these tokens of the list.
abbrev pub walk_at : List Token → List Token → Walk
walk_at tokens pre = walk_after tokens 0 first_walk pre

search_condition_ids-get :
    (xs : List Token) (t : Token) (ys : List Token)
    → get_elem? (search_condition_ids (xs ++ t ∷ ys)) (length xs)
      ≡ some (mark (xs ++ t ∷ ys) (0 + length xs) t (walk_at (xs ++ t ∷ ys) xs)).id
unfolding search_condition_ids
search_condition_ids-get xs t ys = ids_from-get (xs ++ t ∷ ys) 0 first_walk xs t ys

-- The parentheses of a group, and the tokens behind it, see the condition that stood around it.
pub record Resumes (tokens pre group : List Token) (last : ℕ) : Type 0 where
  pub first_id :
      get_elem? (search_condition_ids tokens) (length pre) ≡ some (walk_at tokens pre).top.cond
  pub last_id : get_elem? (search_condition_ids tokens) last ≡ some (walk_at tokens pre).top.cond
  pub top : (walk_at tokens (pre ++ group)).top ≡ (walk_at tokens pre).top
  pub below : (walk_at tokens (pre ++ group)).below ≡ (walk_at tokens pre).below

-- The variables where the closing parenthesis of a group stands, and what it makes of them.
module _ (tokens : List Token) (i : ℕ) (w : Walk) (t : Token) (inner : List Token) (u : Token)
    (o : is_open t ≡ true) (b : is_balanced 0 inner ≡ true) (s : is_shut u ≡ true) where
  abbrev inside : Walk
  inside = walk_after tokens i w (t ∷ inner)

  inside-below : inside.below ≡ w.top ∷ w.below
  inside-below =
      balanced-below tokens (i + 1) 0 (mark tokens i t w).walk [] (w.top ∷ w.below) inner b refl
        (pushed-below tokens i t w w.below o refl)

  group-shut :
      (k : ℕ)
      → mark tokens k u inside
        ≡ record { walk = record inside { top = w.top; below = w.below }; id = w.top.cond }
  group-shut k = popped tokens k u inside w.top w.below s inside-below

  group-walk :
      (walk_after tokens i w (t ∷ (inner ++ (u ∷ []))))
      ≡ record inside { top = w.top; below = w.below }
  group-walk =
      walk_after-append tokens i w (t ∷ inner) (u ∷ [])
      ∙ ap (λ m. m.walk) (group-shut (i + length (t ∷ inner)))

-- In any list of tokens, a pair of parentheses with balanced tokens between them leaves the frame at
-- hand and those below as they were, whatever clauses, statements and batches stand inside: both
-- parentheses get the id of the condition around them, and that condition goes on behind them.
pub search_condition_ids-Resumes :
    (pre : List Token) (t : Token) (inner : List Token) (u : Token) (post : List Token)
    → is_open t ≡ true
    → is_balanced 0 inner ≡ true
    → is_shut u ≡ true
    → Resumes
        (pre ++ (t ∷ (inner ++ (u ∷ post))))
        pre
        (t ∷ (inner ++ (u ∷ [])))
        (length (pre ++ t ∷ inner))
search_condition_ids-Resumes pre t inner u post o b s =
    let tokens = pre ++ (t ∷ (inner ++ (u ∷ post))) in
    let w = walk_at tokens pre in
    let n = 0 + length pre in
    let k = length (pre ++ t ∷ inner) in
    let whole = walk_after-append tokens 0 first_walk pre (t ∷ (inner ++ (u ∷ []))) in
    let inner_walk = walk_after-append tokens 0 first_walk pre (t ∷ inner) in
    record {
      first_id =
          search_condition_ids-get pre t (inner ++ (u ∷ post))
          ∙ ap (λ m. some m.id) (mark-open tokens n t w o);
      last_id =
          subst
            (λ l.
              get_elem? (search_condition_ids l) k
              ≡ some (mark l (0 + k) u (walk_at l (pre ++ t ∷ inner))).id)
            (append_assoc pre (t ∷ inner) (u ∷ post))
            (search_condition_ids-get (pre ++ t ∷ inner) u post)
          ∙ ap (λ v. some (mark tokens (0 + k) u v).id) inner_walk
          ∙ ap (λ m. some m.id) (group-shut tokens n w t inner u o b s (0 + k));
      top = ap (λ v. v.top) (whole ∙ group-walk tokens n w t inner u o b s);
      below = ap (λ v. v.below) (whole ∙ group-walk tokens n w t inner u o b s);
    }
