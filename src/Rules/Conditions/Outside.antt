-- ===== src/Rules/Conditions/Outside.antt =====
-- Outside of search conditions: no token has an id before a word that opens a condition.
use dbopt.Base.{
  ℕ, zero, suc, ◌+◌, ◌-◌, u32, ◌≤◌, ◌≡◌, refl, ap, ◌∙◌, sym, Bool, true, false, not, ◌&&◌, ◌||◌,
  Bool-cases, inl, inr, if_both, some, some_inj, List, [], ◌∷◌, all, ◌==◌, get_elem?, arith,
}
use dbopt.Base.Bytes.{codes}
use dbopt.Tokens.{Token}
use dbopt.Rules.{is_keyword_at}
use dbopt.Rules.Conditions.{
  Frame, Walk, first_walk, push_frame, pop_frame, end_statement, close_condition, read_word, mark,
  ids_from, search_condition_ids,
}
use dbopt.Rules.Conditions.Fresh.{close_condition-cond, mark-cases}

-- A word at which a condition may begin.
abbrev pub may_open : List Token → ℕ → Bool
may_open tokens i =
    is_keyword_at tokens i (codes "WHERE")
    || is_keyword_at tokens i (codes "HAVING")
    || is_keyword_at tokens i (codes "ON")

-- No frame holds the id of a condition.
abbrev is_outside : Walk → Bool
is_outside w = w.top.cond == 0 && all (λ f. f.cond == 0) w.below

push_frame-outside : (w : Walk) → is_outside w ≡ true → is_outside (push_frame w) ≡ true
unfolding push_frame
push_frame-outside w h = ground (arith, h)

pop_frame-outside : (w : Walk) → is_outside w ≡ true → is_outside (pop_frame w) ≡ true
unfolding pop_frame
pop_frame-outside w h = popped w.below (ground (arith, h))
  where
    popped :
        (fs : List Frame)
        → all (λ f. f.cond == 0) fs ≡ true
        → is_outside (elim fs as (λ x. Walk) [ [] ↦ w | g ∷ gs ↦ record w { top = g; below = gs } ])
          ≡ true
    popped [] k = h
    popped (g ∷ gs) k = ground (arith, k)

end_statement-outside : (w : Walk) → is_outside w ≡ true → is_outside (end_statement w) ≡ true
unfolding end_statement
end_statement-outside w h = ground (arith, h)

record Outside (w : Walk) : Type 0 where
  holds : is_outside w ≡ true

read_word-Outside :
    (tokens : List Token) (i : ℕ) (w : Walk)
    → may_open tokens i ≡ false
    → is_outside w ≡ true
    → Outside (read_word tokens i w)
unfolding read_word
read_word-Outside tokens i w quiet h =
    let where_word : is_keyword_at tokens i (codes "WHERE") ≡ false = ground (arith, quiet) in
    let having_word : is_keyword_at tokens i (codes "HAVING") ≡ false = ground (arith, quiet) in
    let on_word : is_keyword_at tokens i (codes "ON") ≡ false = ground (arith, quiet) in
    let shut = close_condition-cond tokens i w.top in
    let deeper : Outside
        (record w { top = record w.top { case_depth = u32 (w.top.case_depth + 1) } }) =
      record { holds = ground (arith, h) } in
    let back : Outside (record w { top = record w.top { case_depth = w.top.case_depth - 1 } }) =
      record { holds = ground (arith, h) } in
    let ended : Outside (record w { top = record w.top { cond = 0 } }) = record {
      holds = ground (arith, h);
    } in
    let closed : Outside (record w { top = close_condition tokens i w.top }) = record {
      holds = ground (arith, h, shut);
    } in
    let same : Outside w = record { holds = h } in
    rw (where_word, having_word, on_word)
      (if_both Outside _ _ _ deeper (
        if_both Outside _ _ _ back
          (if_both Outside _ _ _ ended (if_both Outside _ _ _ closed same))))

-- A round at another token leaves no frame with an id, and writes none.
mark-outside :
    (tokens : List Token) (i : ℕ) (t : Token) (w : Walk)
    → may_open tokens i ≡ false
    → is_outside w ≡ true
    → (is_outside (mark tokens i t w).walk ≡ true) × ((mark tokens i t w).id ≡ 0)
mark-outside tokens i t w quiet h =
    let top_zero : (v : Walk) → is_outside v ≡ true → v.top.cond ≡ 0 = λ v k. ground (arith, k) in
    let popped = pop_frame-outside w h in
    mark-cases (λ m. (is_outside m.walk ≡ true) × (m.id ≡ 0)) tokens i t w (h, refl)
      (push_frame-outside w h, top_zero w h) (popped, top_zero (pop_frame w) popped)
      (end_statement-outside w h, refl)
      λ v e.
        let k : is_outside v ≡ true = elim e [
          | inl q ↦ rw q h
          | inr q ↦ rw q ((read_word-Outside tokens i w quiet h).holds)
        ] in
        (k, top_zero v k)

ids_from-outside :
    (tokens : List Token) (i : ℕ) (w : Walk) (ts : List Token) (p b : ℕ)
    → ((m : ℕ) → m ≤ i + p → may_open tokens m ≡ false)
    → is_outside w ≡ true
    → get_elem? (ids_from tokens i w ts) p ≡ some b
    → b ≡ 0
unfolding ids_from
ids_from-outside tokens i w [] p b quiet h e = absurd cc
ids_from-outside tokens i w (t ∷ ts) zero b quiet h e =
    let m = mark-outside tokens i t w (quiet i (omega arith)) h in
    sym (some_inj (mark tokens i t w).id b e) ∙ m.1
ids_from-outside tokens i w (t ∷ ts) (suc p) b quiet h e =
    let m = mark-outside tokens i t w (quiet i (omega arith)) h in
    ids_from-outside tokens (i + 1) (mark tokens i t w).walk ts p b
      (λ n le. quiet n (omega (arith, le))) m.0 e

-- No token up to this place may open a condition.
abbrev pub none_opens : List Token → ℕ → Bool
none_opens tokens zero = not (may_open tokens 0)
none_opens tokens (suc j) = not (may_open tokens (suc j)) && none_opens tokens j

none_opens-le :
    (tokens : List Token) (j m : ℕ) → none_opens tokens j ≡ true → m ≤ j → may_open tokens m ≡ false
none_opens-le tokens zero m h le =
    let here : 0 ≡ m = omega (arith, le) in ap (may_open tokens) (sym here) ∙ ground (arith, h)
none_opens-le tokens (suc j) m h le = elim (Bool-cases (m == suc j)) [
  | inl e ↦
      let here : suc j ≡ m = ground (arith, e) in
      let quiet : may_open tokens (suc j) ≡ false = ground (arith, h) in
      ap (may_open tokens) (sym here) ∙ quiet
  | inr e ↦ none_opens-le tokens j m (ground (arith, h)) (ground (arith, e, le))
]

-- In any list of tokens, a token has the id 0 if neither it nor any token before it is a WHERE, a HAVING
-- or an ON: nothing stands in a search condition that no such word has opened, whatever clauses,
-- statements, batches and parentheses, balanced or not, come before it.
pub search_condition_ids-outside :
    (tokens : List Token) (j b : ℕ)
    → none_opens tokens j ≡ true
    → get_elem? (search_condition_ids tokens) j ≡ some b
    → b ≡ 0
unfolding search_condition_ids
search_condition_ids-outside tokens j b quiet e =
    ids_from-outside tokens 0 first_walk tokens j b
      (λ m le. none_opens-le tokens j m quiet (omega (arith, le))) refl e
