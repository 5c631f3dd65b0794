-- ===== src/Tokens/Tests.antt =====
-- The tokenizer on concrete texts, and its theorems at them.
use dbopt.Base.{Bool, ℕ, ◌≡◌, refl, [], ◌∷◌, ◌++◌, map, arith}
use dbopt.Base.Bytes.{Bytes, codes}
use dbopt.Tokens.{
  TokKind, word, string, comment, Token, Span, no_span, span_lines, move, token_at, first_cursor,
  tokenize_from, tokenize, is_keyword,
}
use dbopt.Tokens.Tiles.{Tiles, tokenize-Tiles}
use dbopt.Tokens.Literals.{
  literal, delimited, block_comment, Nested, empty, byte, inner, tokenize-literal,
  tokenize-delimited, tokenize-block_comment,
}

abbrev script : Bytes
script = codes "SELECT 'it''s\n--no'\n  /* a /* b */ c */ [Go] -- end\nFROM t1"

abbrev shape : Token → TokKind × ℕ × ℕ × ℕ
shape t = (t.kind, t.start, t.line, t.col)

tokenize-script :
    map shape (tokenize script)
    ≡ (word, 0, 1, 1)
      ∷ (string, 7, 1, 8)
      ∷ (comment, 22, 3, 3)
      ∷ (word, 40, 3, 21)
      ∷ (comment, 45, 3, 26)
      ∷ (word, 52, 4, 1)
      ∷ (word, 57, 4, 6)
      ∷ []
unfolding tokenize
tokenize-script = refl

tokenize-Tiles_example : Tiles [] script (tokenize script)
tokenize-Tiles_example = tokenize-Tiles script (omega arith)

abbrev note : Bytes
note = codes "it's -- dbopt-ignore-file\n"

tokenize-literal_example :
    tokenize_from 3 first_cursor (literal note ++ codes ";")
    ≡ token_at first_cursor string (span_lines no_span (literal note)) (literal note ++ codes ";")
      ∷ tokenize_from 2 (move first_cursor (span_lines no_span (literal note))) (codes ";")
tokenize-literal_example = tokenize-literal 2 first_cursor note (codes ";") refl

tokenize-delimited_example :
    tokenize_from 3 first_cursor (delimited note ++ codes ".x")
    ≡ token_at first_cursor word
        (span_lines no_span (delimited note))
        (delimited note ++ codes ".x")
      ∷ tokenize_from 2 (move first_cursor (span_lines no_span (delimited note))) (codes ".x")
tokenize-delimited_example = tokenize-delimited 2 first_cursor note (codes ".x") refl

abbrev nest : Nested (codes "1/2/*b*/*")
nest =
    byte b'1' refl
      (byte b'/' refl (byte b'2' refl (inner (byte b'b' refl empty) (byte b'*' refl empty))))

tokenize-block_comment_example :
    (s : Span) × (s.advance ≡ 13)
    × (tokenize_from 3 first_cursor (block_comment (codes "1/2/*b*/*") ++ codes "x")
        ≡ token_at first_cursor comment s (block_comment (codes "1/2/*b*/*") ++ codes "x")
          ∷ tokenize_from 2 (move first_cursor s) (codes "x"))
tokenize-block_comment_example = tokenize-block_comment nest 2 first_cursor (codes "x")

is_keyword-brackets : is_keyword (codes "[Select]") (codes "SELECT") ≡ Bool.true
unfolding is_keyword
is_keyword-brackets = refl
