-- ===== src/Tokens/Literals.antt =====
-- Quoted runs and nested block comments are single tokens, whatever they hold.
use dbopt.Base.{
  ℕ, suc, ◌+◌, ◌-◌, ◌≤◌, ◌≡◌, refl, sym, ap, ◌∙◌, Bool, false, ◌&&◌, ◌||◌, [], ◌∷◌, ◌++◌, ◌==◌,
  if◌then◌else◌, length, take, drop, arith, Bool-cases, inl, inr, length-append, append_assoc,
  take-append_length, drop-append_length, ==_refl,
}
use dbopt.Base.Bytes.{Bytes}
use dbopt.Tokens.Measure.{Counts-span_lines}
use dbopt.Tokens.{
  TokKind, string, word, comment, Span, no_span, two_bytes, count_byte, span_lines, scan,
  scan_quoted, scan_block, block_span, next_is, is_blank, is_whitespace, Cursor, move, first_cursor,
  token_at, tokenize, tokenize_from,
}

-- The body of a quoted run with each quote written twice.
abbrev pub doubled : ℕ → Bytes → Bytes
doubled q [] = []
doubled q (b ∷ bs) = if b == q then q ∷ q ∷ doubled q bs else b ∷ doubled q bs

-- A string literal in a statement: `'…'`.
abbrev pub literal : Bytes → Bytes
literal body = b'\'' ∷ (doubled b'\'' body ++ b'\'' ∷ [])

-- A delimited identifier: `"…"`.
abbrev pub delimited : Bytes → Bytes
delimited body = b'"' ∷ (doubled b'"' body ++ b'"' ∷ [])

scan_quoted_closer : (q : ℕ) (rest : Bytes) → next_is q rest ≡ false → scan_quoted q (q ∷ rest) ≡ 1
unfolding scan_quoted
scan_quoted_closer q [] h = refl
scan_quoted_closer q (b ∷ rest) h = ground (arith, ==_refl q)

-- The first byte of what follows a byte is not asked for, unless that byte is the quote.
scan_quoted_other :
    (q b : ℕ) (rest : Bytes)
    → (b == q) ≡ false
    → 1 ≤ length rest
    → scan_quoted q (b ∷ rest) ≡ suc (scan_quoted q rest)
unfolding scan_quoted
scan_quoted_other q b [] h k = absurd (omega arith)
scan_quoted_other q b (c ∷ rest) h k = rw h

scan_quoted_pair :
    (q : ℕ) (rest : Bytes) → scan_quoted q (q ∷ q ∷ rest) ≡ suc (suc (scan_quoted q rest))
unfolding scan_quoted
scan_quoted_pair q rest = rw ==_refl

scan_quoted-doubled :
    (q : ℕ) (body rest : Bytes)
    → next_is q rest ≡ false
    → scan_quoted q (doubled q body ++ q ∷ rest) ≡ length (doubled q body ++ q ∷ [])
scan_quoted-doubled q [] rest h = scan_quoted_closer q rest h
scan_quoted-doubled q (b ∷ bs) rest h = elim (Bool-cases (b == q)) [
  | inl e ↦ rw e (scan_quoted_pair q _ ∙ ap (λ n. suc (suc n)) (scan_quoted-doubled q bs rest h))
  | inr e ↦ rw e (
      scan_quoted_other q b _ e (omega (arith, length-append (doubled q bs) (q ∷ rest)))
      ∙ ap suc (scan_quoted-doubled q bs rest h))
]

closed_take : (q : ℕ) (w rest : Bytes) → take (length (w ++ q ∷ [])) (w ++ q ∷ rest) ≡ w ++ q ∷ []
closed_take q w rest =
    ap (take (length (w ++ q ∷ []))) (sym (append_assoc w (q ∷ []) rest))
    ∙ take-append_length (w ++ q ∷ []) rest

scan-literal :
    (body rest : Bytes)
    → next_is b'\'' rest ≡ false
    → scan b'\'' (doubled b'\'' body ++ b'\'' ∷ rest) ≡ (string, span_lines no_span (literal body))
unfolding scan is_blank
scan-literal body rest h = rw scan_quoted-doubled (
    ap (λ w. (string, span_lines no_span (b'\'' ∷ w)))
      (closed_take b'\'' (doubled b'\'' body) rest))

scan-delimited :
    (body rest : Bytes)
    → next_is b'"' rest ≡ false
    → scan b'"' (doubled b'"' body ++ b'"' ∷ rest) ≡ (word, span_lines no_span (delimited body))
unfolding scan is_blank
scan-delimited body rest h =
    rw scan_quoted-doubled
      (ap (λ w. (word, span_lines no_span (b'"' ∷ w))) (closed_take b'"' (doubled b'"' body) rest))

-- Do these bytes begin with an opener, or with a closer, of a block comment?
abbrev pub is_mark : Bytes → Bool
is_mark (a ∷ b ∷ bs) = (a == b'/' && b == b'*') || (a == b'*' && b == b'/')
is_mark bs = false

-- Text that may stand inside a block comment: any bytes and block comments, as long as no byte opens or
-- closes a comment with the one behind it. Behind the text the closer stands.
pub data Nested : Bytes → Type 0 where
  empty : Nested []
  byte :
      {w : Bytes} (b : ℕ)
      → is_mark (b ∷ (w ++ b'*' ∷ b'/' ∷ [])) ≡ false
      → Nested w
      → Nested (b ∷ w)
  inner : {u w : Bytes} → Nested u → Nested w → Nested (b'/' ∷ b'*' ∷ (u ++ b'*' ∷ b'/' ∷ w))

abbrev pub block_comment : Bytes → Bytes
block_comment u = b'/' ∷ b'*' ∷ (u ++ b'*' ∷ b'/' ∷ [])

-- What the counters hold behind a nested text.
counted : {u : Bytes} → Nested u → Span → Span
counted empty s = s
counted (byte b _ n) s = counted n (count_byte b s)
counted (inner n m) s = counted m (two_bytes (counted n (two_bytes s)))

counted-advance :
    {u : Bytes} (n : Nested u) (s : Span) → (counted n s).advance ≡ s.advance + length u
unfolding counted count_byte
counted-advance empty s = omega arith
counted-advance (byte b _ n) s = ground (arith, counted-advance n (count_byte b s))
counted-advance (inner {u} {w} n m) s = omega (
  arith,
  counted-advance m (two_bytes (counted n (two_bytes s))),
  counted-advance n (two_bytes s),
  length-append u (b'*' ∷ b'/' ∷ w),
)

scan_block_pass :
    (depth : ℕ) (s : Span) (b c : ℕ) (rest : Bytes)
    → is_mark (b ∷ c ∷ rest) ≡ false
    → scan_block depth s (b ∷ c ∷ rest) ≡ scan_block depth (count_byte b s) (c ∷ rest)
unfolding scan_block
scan_block_pass depth s b c rest h =
    let opener : (b == b'/' && c == b'*') ≡ false = ground (arith, h) in
    let closer : (b == b'*' && c == b'/') ≡ false = ground (arith, h) in rw (opener, closer)

-- A byte in front of a text and the closer is passed, if it is no mark with the byte behind it.
scan_block_byte :
    (depth : ℕ) (s : Span) (b : ℕ) (w rest : Bytes)
    → is_mark (b ∷ (w ++ b'*' ∷ b'/' ∷ [])) ≡ false
    → scan_block depth s (b ∷ (w ++ b'*' ∷ b'/' ∷ rest))
      ≡ scan_block depth (count_byte b s) (w ++ b'*' ∷ b'/' ∷ rest)
scan_block_byte depth s b [] rest h = scan_block_pass depth s b b'*' (b'/' ∷ rest) h
scan_block_byte depth s b (c ∷ w) rest h = scan_block_pass depth s b c (w ++ b'*' ∷ b'/' ∷ rest) h

scan_block_open :
    (depth : ℕ) (s : Span) (rest : Bytes)
    → scan_block depth s (b'/' ∷ b'*' ∷ rest) ≡ scan_block (suc depth) (two_bytes s) rest
unfolding scan_block
scan_block_open depth s rest = ap (λ d. scan_block d (two_bytes s) rest) (omega arith)

scan_block_close :
    (depth : ℕ) (s : Span) (rest : Bytes)
    → scan_block (suc (suc depth)) s (b'*' ∷ b'/' ∷ rest)
      ≡ scan_block (suc depth) (two_bytes s) rest
unfolding scan_block
scan_block_close depth s rest =
    let less : suc (suc depth) - 1 ≡ suc depth = omega arith in
    let more : (suc depth == 0) ≡ false = ground arith in rw (less, more)

-- A nested text is passed at the depth at which it begins, up to its closer.
scan_block-Nested :
    {u : Bytes} (n : Nested u) (depth : ℕ) (s : Span) (rest : Bytes)
    → scan_block (suc depth) s (u ++ b'*' ∷ b'/' ∷ rest)
      ≡ scan_block (suc depth) (counted n s) (b'*' ∷ b'/' ∷ rest)
unfolding counted
scan_block-Nested empty depth s rest = refl
scan_block-Nested (byte {w} b h n) depth s rest =
    scan_block_byte (suc depth) s b w rest h ∙ scan_block-Nested n depth (count_byte b s) rest
scan_block-Nested (inner {u} {w} n m) depth s rest =
    let closer = b'*' ∷ b'/' ∷ rest in
    scan_block_open (suc depth) s _
    ∙ ap (scan_block (suc (suc depth)) (two_bytes s)) (append_assoc u (b'*' ∷ b'/' ∷ w) closer)
    ∙ scan_block-Nested n (suc depth) (two_bytes s) (w ++ closer)
    ∙ scan_block_close depth (counted n (two_bytes s)) (w ++ closer)
    ∙ scan_block-Nested m depth (two_bytes (counted n (two_bytes s))) rest

scan-block_comment :
    {u : Bytes} (n : Nested u) (rest : Bytes)
    → scan b'/' (b'*' ∷ (u ++ b'*' ∷ b'/' ∷ rest))
      ≡ (comment, two_bytes (counted n (two_bytes no_span)))
unfolding scan is_blank block_span scan_block
scan-block_comment n rest = rw (scan_block-Nested n 0 (two_bytes no_span) rest)

pub tokenize-cons :
    (b : ℕ) (bs : Bytes) → tokenize (b ∷ bs) ≡ tokenize_from (suc (length bs)) first_cursor (b ∷ bs)
unfolding tokenize
tokenize-cons b bs = refl

-- A round of the loop whose scan takes the bytes `w`.
tokenize_from_round :
    (fuel : ℕ) (c : Cursor) (b : ℕ) (w rest : Bytes) (kind : TokKind) (s : Span)
    → scan b (w ++ rest) ≡ (kind, s)
    → is_whitespace kind ≡ false
    → s.advance ≡ suc (length w)
    → tokenize_from (suc fuel) c (b ∷ (w ++ rest))
      ≡ token_at c kind s (b ∷ (w ++ rest)) ∷ tokenize_from fuel (move c s) rest
unfolding tokenize_from
tokenize_from_round fuel c b w rest kind s e solid adv =
    rw (e, solid)
      (ap (λ l. token_at c kind s (b ∷ (w ++ rest)) ∷ tokenize_from fuel (move c s) l)
        (ap (λ n. drop n (b ∷ (w ++ rest))) adv ∙ drop-append_length w rest))

span_lines-advance : (s : Span) (w : Bytes) → (span_lines s w).advance ≡ s.advance + length w
span_lines-advance s w = let c = Counts-span_lines s w in c.advance

-- Where a string literal begins, the loop of the tokenizer takes the whole literal as one string
-- token, however many quotes, comment marks or line feeds its body holds, and goes on with what
-- follows, provided that is no quote.
pub tokenize-literal :
    (fuel : ℕ) (c : Cursor) (body rest : Bytes)
    → next_is b'\'' rest ≡ false
    → tokenize_from (suc fuel) c (literal body ++ rest)
      ≡ token_at c string (span_lines no_span (literal body)) (literal body ++ rest)
        ∷ tokenize_from fuel (move c (span_lines no_span (literal body))) rest
tokenize-literal fuel c body rest h =
    tokenize_from_round fuel c b'\'' (doubled b'\'' body ++ b'\'' ∷ []) rest string _
      (ap (scan b'\'') (append_assoc (doubled b'\'' body) (b'\'' ∷ []) rest)
        ∙ scan-literal body rest h)
      refl (span_lines-advance no_span (literal body) ∙ omega arith)

-- Where an identifier in double quotes begins, the loop takes the whole identifier as one word token
-- and goes on behind it, unless a double quote follows.
pub tokenize-delimited :
    (fuel : ℕ) (c : Cursor) (body rest : Bytes)
    → next_is b'"' rest ≡ false
    → tokenize_from (suc fuel) c (delimited body ++ rest)
      ≡ token_at c word (span_lines no_span (delimited body)) (delimited body ++ rest)
        ∷ tokenize_from fuel (move c (span_lines no_span (delimited body))) rest
tokenize-delimited fuel c body rest h =
    tokenize_from_round fuel c b'"' (doubled b'"' body ++ b'"' ∷ []) rest word _
      (ap (scan b'"') (append_assoc (doubled b'"' body) (b'"' ∷ []) rest)
        ∙ scan-delimited body rest h)
      refl (span_lines-advance no_span (delimited body) ∙ omega arith)

-- A block comment is one comment token up to its own closer, and the loop goes on right behind that; its
-- text may hold any bytes, single slashes and stars too, and block comments to any depth, each with
-- its closer.
pub tokenize-block_comment :
    {u : Bytes} (n : Nested u) (fuel : ℕ) (c : Cursor) (rest : Bytes)
    → (s : Span) × (s.advance ≡ length (block_comment u))
      × (tokenize_from (suc fuel) c (block_comment u ++ rest)
          ≡ token_at c comment s (block_comment u ++ rest) ∷ tokenize_from fuel (move c s) rest)
tokenize-block_comment {u} n fuel c rest =
    let s = two_bytes (counted n (two_bytes no_span)) in
    let size : s.advance ≡ length (block_comment u) =
      omega (arith, counted-advance n (two_bytes no_span), length-append u (b'*' ∷ b'/' ∷ [])) in
    (
      s,
      size,
      tokenize_from_round fuel c b'/' (b'*' ∷ (u ++ b'*' ∷ b'/' ∷ [])) rest comment s
          (ap (λ l. scan b'/' (b'*' ∷ l)) (append_assoc u (b'*' ∷ b'/' ∷ []) rest)
            ∙ scan-block_comment n rest)
          refl size,
    )
