-- ===== src/Tokens.antt =====
-- crates/analyzer-core/src/tokens.rs: the tokenizer. The source walks indices `i` and `j` over the
-- bytes of the text; here the bytes that are left stand for the index, and each inner loop returns
-- what it would have added to `j`, with the line feeds and the bytes after the last of them.
-- `depth` of a block comment is an `i32` in the source; it is counted without a bound here, since
-- 2^31 openers need a text of 4 GiB, which the position fields exclude as well.
pub mod Measure
pub mod Scans
mod Tests
pub mod Literals
pub mod Tiles
use dbopt.Base.{
  ℕ, zero, suc, ◌+◌, ◌-◌, Bool, true, false, ◌&&◌, ◌||◌, List, [], ◌∷◌, ltb, ◌==◌, if◌then◌else◌,
  u32, length, take, drop,
}
use dbopt.Base.Bytes.{Bytes, is_alpha, is_digit, is_alnum, eq_ignore_case, trim_matches}
use dbopt.Base.Utf8.{from_utf8_or_empty}

pub data TokKind : Type 0 where
  word number string punct comment whitespace : TokKind

pub record Token : Type 0 where
  pub kind : TokKind
  pub text : Bytes
  pub start : ℕ
  pub stop : ℕ
  pub line : ℕ
  pub col : ℕ

-- How far a scan went: bytes, line feeds, and bytes behind the last line feed.
pub record Span : Type 0 where
  pub advance : ℕ
  pub newlines : ℕ
  pub last : ℕ

abbrev pub no_span : Span
no_span = record { advance = 0; newlines = 0; last = 0 }

-- One byte more: `if b == '\n' { nl += 1; last = 0 } else { last += 1 }; j += 1`.
unfoldable pub count_byte : ℕ → Span → Span
count_byte b s =
    if b == b'\n'
    then record { advance = s.advance + 1; newlines = s.newlines + 1; last = 0 }
    else record { advance = s.advance + 1; newlines = s.newlines; last = s.last + 1 }

-- span_lines
unfoldable pub span_lines : Span → Bytes → Span
unfolding count_byte
span_lines s [] = s
span_lines s (b ∷ bs) = span_lines (count_byte b s) bs

-- A scan over bytes with no line feed: (j - i, 0, j - i).
abbrev pub flat_span : ℕ → Span
flat_span n = record { advance = n; newlines = 0; last = n }

unfoldable pub is_blank : ℕ → Bool
is_blank b = b == b' ' || b == b'\t' || b == b'\r' || b == b'\n'

unfoldable pub scan_whitespace : Span → Bytes → Span
unfolding count_byte is_blank
scan_whitespace s [] = s
scan_whitespace s (b ∷ bs) =
    let more = scan_whitespace (count_byte b s) bs in if is_blank b then more else s

-- Bytes before the line feed that ends a `--` comment.
unfoldable pub scan_line : Bytes → ℕ
scan_line [] = 0
scan_line (b ∷ bs) = let more = scan_line bs in if b == b'\n' then 0 else suc more

-- What is left open when the loop over a block comment stops.
pub record Block : Type 0 where
  pub depth : ℕ
  pub span : Span

abbrev pub two_bytes : Span → Span
two_bytes s = record { advance = s.advance + 2; newlines = s.newlines; last = s.last + 2 }

-- `while j + 1 < bytes.len()` behind the opener; `depth` is at least 1.
unfoldable pub scan_block : ℕ → Span → Bytes → Block
unfolding count_byte
scan_block depth s [] = record { depth = depth; span = s }
scan_block depth s (a ∷ []) = record { depth = depth; span = s }
scan_block depth s (a ∷ b ∷ bs) =
    let opened = scan_block (depth + 1) (two_bytes s) bs in
    let closed = scan_block (depth - 1) (two_bytes s) bs in
    let passed = scan_block depth (count_byte a s) (b ∷ bs) in
    if a == b'/' && b == b'*'
    then opened
    else if a == b'*' && b == b'/'
    then (if depth - 1 == 0 then record { depth = 0; span = two_bytes s } else closed)
    else passed

-- Bytes of a quoted run behind its opener, the closer included; a doubled quote does not close it.
unfoldable pub scan_quoted : ℕ → Bytes → ℕ
scan_quoted q [] = 0
scan_quoted q (a ∷ []) = 1
scan_quoted q (a ∷ b ∷ bs) =
    let doubled = suc (suc (scan_quoted q bs)) in
    let passed = suc (scan_quoted q (b ∷ bs)) in
    if a == q then (if b == q then doubled else 1) else passed

-- Bytes of a bracketed name behind its `[`, the `]` included.
unfoldable pub scan_bracket : Bytes → ℕ
scan_bracket [] = 0
scan_bracket (b ∷ bs) = let more = scan_bracket bs in if b == b']' then 1 else suc more

-- `while` the test holds, `j += 1`.
unfoldable pub scan_while : (ℕ → Bool) → Bytes → ℕ
scan_while p [] = 0
scan_while p (b ∷ bs) = let more = scan_while p bs in if p b then suc more else 0

abbrev is_name_start : ℕ → Bool
is_name_start b = is_alpha b || b == b'_' || b == b'@' || b == b'#'

abbrev is_name_byte : ℕ → Bool
is_name_byte b = is_alnum b || b == b'_' || b == b'$' || b == b'#'

abbrev is_number_byte : ℕ → Bool
is_number_byte b = is_digit b || b == b'.'

-- Is the byte at the head of these this one?
abbrev pub next_is : ℕ → Bytes → Bool
next_is c [] = false
next_is c (b ∷ bs) = b == c

-- A block comment behind its opener, `text` being the whole of what is left.
unfoldable pub block_span : Block → Bytes → Span
block_span r text = if ltb 0 r.depth then record r.span { advance = length text } else r.span

-- The `match b` of the loop, on the byte `b` and the bytes behind it.
unfoldable pub scan : ℕ → Bytes → TokKind × Span
unfolding is_alpha is_digit is_alnum is_blank count_byte span_lines scan_whitespace scan_line
    scan_block block_span scan_quoted scan_bracket scan_while
scan b bs =
    let measured : ℕ → Span = λ n. span_lines no_span (take n (b ∷ bs)) in
    if is_blank b
    then (whitespace, scan_whitespace no_span (b ∷ bs))
    else if b == b'-' && next_is b'-' bs
    then (comment, flat_span (suc (suc (scan_line (drop 1 bs)))))
    else if b == b'/' && next_is b'*' bs
    then (comment, block_span (scan_block 1 (two_bytes no_span) (drop 1 bs)) (b ∷ bs))
    else if b == b'\''
    then (string, measured (suc (scan_quoted b'\'' bs)))
    else if b == b'"'
    then (word, measured (suc (scan_quoted b'"' bs)))
    else if b == b'['
    then (word, measured (suc (scan_bracket bs)))
    else if is_name_start b
    then (word, flat_span (suc (scan_while is_name_byte bs)))
    else if is_digit b
    then (number, flat_span (suc (scan_while is_number_byte bs)))
    else (punct, flat_span 1)

abbrev pub is_whitespace : TokKind → Bool
is_whitespace whitespace = true
is_whitespace word = false
is_whitespace number = false
is_whitespace string = false
is_whitespace punct = false
is_whitespace comment = false

-- Where the loop stands: `i`, `line` and `col`.
pub record Cursor : Type 0 where
  pub offset : ℕ
  pub line : ℕ
  pub col : ℕ

-- The updates of `i`, `line` and `col` at the end of a round.
unfoldable pub move : Cursor → Span → Cursor
move c s =
    let newlines = u32 s.newlines in
    let last = u32 s.last in
    if ltb 0 newlines
    then record {
      offset = c.offset + s.advance;
      line = u32 (c.line + newlines);
      col = u32 (last + 1);
    }
    else record { offset = c.offset + s.advance; line = c.line; col = u32 (c.col + last) }

abbrev pub token_at : Cursor → TokKind → Span → Bytes → Token
token_at c kind s rest = record {
  kind = kind;
  text = from_utf8_or_empty (take s.advance rest);
  start = u32 c.offset;
  stop = u32 (c.offset + s.advance);
  line = c.line;
  col = c.col;
}

-- The loop, on fuel: each round takes at least one byte.
unfoldable pub tokenize_from : ℕ → Cursor → Bytes → List Token
unfolding scan move from_utf8_or_empty
tokenize_from zero c rest = []
tokenize_from (suc fuel) c [] = []
tokenize_from (suc fuel) c (b ∷ bs) =
    let (kind, s) = scan b bs in
    let more = tokenize_from fuel (move c s) (drop s.advance (b ∷ bs)) in
    if is_whitespace kind then more else token_at c kind s (b ∷ bs) ∷ more

abbrev pub first_cursor : Cursor
first_cursor = record { offset = 0; line = 1; col = 1 }

unfoldable pub tokenize : Bytes → List Token
unfolding tokenize_from
tokenize src = tokenize_from (length src) first_cursor src

-- word_eq_ci: the lengths are compared, and then the pairs of bytes.
unfoldable pub word_eq_ci : Bytes → Bytes → Bool
unfolding eq_ignore_case
word_eq_ci a b = length a == length b && eq_ignore_case a b

unfoldable pub is_keyword : Bytes → Bytes → Bool
unfolding word_eq_ci trim_matches
is_keyword text kw = word_eq_ci (trim_matches (λ c. c == b'[' || c == b']') text) kw
