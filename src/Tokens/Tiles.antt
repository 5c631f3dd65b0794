-- ===== src/Tokens/Tiles.antt =====
-- Where the tokens of `tokenize` stand in the text.
use dbopt.Base.{
  ℕ, zero, suc, ◌+◌, ◌≤◌, ◌<◌, ◌≡◌, ◌≢◌, refl, ap, ◌∙◌, true, false, ◌⊎◌, inl, inr, List, [], ◌∷◌,
  ◌++◌, ltb, if◌then◌else◌, u32, length, take, drop, all, arith, if_cases, length-append,
  drop-append_length, take-append_length,
}
use dbopt.Base.Bytes.{Bytes}
use dbopt.Base.Utf8.{from_utf8_or_empty}
use dbopt.Tokens.{
  TokKind, comment, whitespace, Token, Span, no_span, is_blank, scan, is_whitespace, Cursor, move,
  token_at, tokenize_from, first_cursor, tokenize,
}
use dbopt.Tokens.Measure.{
  newlines, since_newline, newlines-append, since_newline-append, since_newline_flat,
  since_newline_fresh, since_newline-le, newlines-le, Counts,
}
use dbopt.Tokens.Scans.{opens_comment, Scans, scan-Scans}

-- The token stands for the bytes `taken`, behind the bytes `before` of the text.
pub record Placed (before taken : Bytes) (t : Token) : Type 0 where
  pub start : t.start ≡ length before
  pub stop : t.stop ≡ length before + length taken
  pub line : t.line ≡ newlines before + 1
  pub col : t.col ≡ since_newline 0 before + 1
  pub text : t.text ≡ from_utf8_or_empty taken
  pub solid : t.kind ≢ whitespace
  pub commented : t.kind ≡ comment → opens_comment taken ≡ true

-- The tokens and gaps of blanks between them make up the text that is left behind `before`.
pub data Tiles : Bytes → Bytes → List Token → Type 0 where
  done : {before : Bytes} → Tiles before [] []
  gap :
      {before src rest : Bytes} {ts : List Token} (w : Bytes)
      → src ≡ w ++ rest
      → all is_blank w ≡ true
      → Tiles (before ++ w) rest ts
      → Tiles before src ts
  token :
      {before src rest : Bytes} {t : Token} {ts : List Token} (w : Bytes)
      → src ≡ w ++ rest
      → 1 ≤ length w
      → Placed before w t
      → Tiles (before ++ w) rest ts
      → Tiles before src (t ∷ ts)

record At (before : Bytes) (c : Cursor) : Type 0 where
  offset : c.offset ≡ length before
  line : c.line ≡ newlines before + 1
  col : c.col ≡ since_newline 0 before + 1

At-move :
    (before w : Bytes) (c : Cursor) (s : Span)
    → At before c
    → Counts no_span w s
    → length before + length w + 1 < 4294967296
    → At (before ++ w) (move c s)
unfolding move
At-move before w c s a n small =
    let here = since_newline 0 before in
    if_cases (At (before ++ w)) (ltb 0 (u32 s.newlines)) _ _
      (λ feeds. record {
        offset = omega (arith, length-append before w, a.offset, n.advance);
        line = ground (
          arith,
          newlines-append before w,
          newlines-le before,
          newlines-le w,
          a.line,
          n.newline_count,
        );
        col = ground (
          arith,
          since_newline-append 0 before w,
          since_newline_fresh here 0 w,
          newlines-le w,
          since_newline-le 0 w,
          n.last,
          n.newline_count,
        );
      })
      (λ flat. record {
        offset = omega (arith, length-append before w, a.offset, n.advance);
        line = ground (arith, newlines-append before w, newlines-le w, a.line, n.newline_count);
        col = ground (
          arith,
          since_newline-append 0 before w,
          since_newline_flat here w,
          since_newline_flat 0 w,
          newlines-le w,
          since_newline-le 0 before,
          n.last,
          n.newline_count,
          a.col,
        );
      })

At-next :
    (before text : Bytes) (c : Cursor) (kind : TokKind) (s : Span) (r : Scans text kind s)
    → At before c
    → length before + length text + 1 < 4294967296
    → At (before ++ r.taken) (move c s) ⊎ (r.left ≡ [])
At-next before text c kind s r a small = elim r.measured [
  | inl n ↦
      let lengths = ap length r.splits ∙ length-append r.taken r.left in
      inl (At-move before r.taken c s a n (omega arith))
  | inr e ↦ inr e
]

Placed-token_at :
    (before text : Bytes) (c : Cursor) (kind : TokKind) (s : Span) (r : Scans text kind s)
    → At before c
    → length before + length text + 1 < 4294967296
    → is_whitespace kind ≡ false
    → Placed before r.taken (token_at c kind s text)
Placed-token_at before text c kind s r a small solid =
    let lengths = ap length r.splits ∙ length-append r.taken r.left in
    let taken = (λ i. take (r.advance i) (r.splits i)) ∙ take-append_length r.taken r.left in
    record {
      start = omega (arith, a.offset);
      stop = omega (arith, a.offset, r.advance);
      line = a.line;
      col = a.col;
      text = ap from_utf8_or_empty taken;
      solid = λ e. cc;
      commented = r.commented;
    }

Tiles-round :
    (before text : Bytes) (c : Cursor) (kind : TokKind) (s : Span) (r : Scans text kind s)
    → (ts : List Token) → At before c
    → length before + length text + 1 < 4294967296
    → Tiles (before ++ r.taken) r.left ts
    → Tiles before text (if is_whitespace kind then ts else token_at c kind s text ∷ ts)
Tiles-round before text c kind s r ts a small more =
    if_cases (Tiles before text) (is_whitespace kind) _ _
      (λ e. gap r.taken r.splits (r.blank (ground (arith, e))) more)
      (λ e.
        token r.taken r.splits r.progress (Placed-token_at before text c kind s r a small e) more)

Tiles-rest :
    (fuel : ℕ) (before rest : Bytes) (c : Cursor)
    → length rest ≤ fuel
    → length before + length rest + 1 < 4294967296
    → At before c ⊎ (rest ≡ [])
    → Tiles before rest (tokenize_from fuel c rest)
unfolding tokenize_from
Tiles-rest zero before [] c h k a = done
Tiles-rest zero before (b ∷ bs) c h k a = absurd (omega arith)
Tiles-rest (suc fuel) before [] c h k a = done
Tiles-rest (suc fuel) before (b ∷ bs) c h k (inr e) = cc
Tiles-rest (suc fuel) before (b ∷ bs) c h k (inl a) =
    let kind = (scan b bs).0 in
    let span = (scan b bs).1 in
    let s = scan-Scans b bs in
    let lengths = ap length s.splits ∙ length-append s.taken s.left in
    let left = (λ i. drop (s.advance i) (s.splits i)) ∙ drop-append_length s.taken s.left in
    rw left (
      Tiles-round before (b ∷ bs) c kind span s _ a k (
        Tiles-rest fuel (before ++ s.taken) s.left (move c span) (omega (arith, s.progress))
          (omega (arith, length-append before s.taken))
          (At-next before (b ∷ bs) c kind span s a k)))

-- The tokens and the gaps of blanks between them make up the whole of a text under 4 GiB, in order,
-- and each token has its offsets, its text, and the line and the column at which it begins: one more
-- than the line feeds before it, and one more than the bytes behind the last of those.
pub tokenize-Tiles : (src : Bytes) → length src + 1 < 4294967296 → Tiles [] src (tokenize src)
unfolding tokenize
tokenize-Tiles src small =
    Tiles-rest (length src) [] src first_cursor (omega arith) (omega arith)
      (inl (record { offset = refl; line = refl; col = refl }))
