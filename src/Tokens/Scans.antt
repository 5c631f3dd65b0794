-- ===== src/Tokens/Scans.antt =====
-- One round of the loop of `tokenize`: what the `match` on a byte takes off the text.
use dbopt.Base.{
  ℕ, suc, ◌≤◌, ◌≡◌, ◌≢◌, refl, sym, ap, ◌∙◌, subst, Bool, true, false, ◌&&◌, ◌||◌, ◌⊎◌, inl, inr,
  [], ◌∷◌, ◌++◌, ltb, ◌==◌, length, take, drop, all, arith, if_cases, take-append-drop, append-nil,
}
use dbopt.Base.Bytes.{Bytes, is_digit, is_alnum}
use dbopt.Tokens.{
  TokKind, word, number, string, punct, comment, whitespace, Span, no_span, two_bytes, flat_span,
  count_byte, span_lines, is_blank, scan_whitespace, scan_line, scan_block, block_span, scan_quoted,
  scan_bracket, scan_while, next_is, scan, is_name_start, is_name_byte, is_number_byte,
}
use dbopt.Tokens.Measure.{
  Counts, Counts-span_lines, Counts-flat_span, Passes, Counts-count_byte, Counts-two_bytes,
  scan_whitespace-PassesBlanks, scan_block-Passes, IsFlat, IsFlat-suc, scan_line-IsFlat,
  scan_while-IsFlat, scan_quoted-le, scan_bracket-le, length-take,
}

-- `--` or `/*`
abbrev pub opens_comment : Bytes → Bool
opens_comment [] = false
opens_comment (a ∷ []) = false
opens_comment (a ∷ b ∷ bs) = (a == b'-' && b == b'-') || (a == b'/' && b == b'*')

pub record Scans (text : Bytes) (kind : TokKind) (s : Span) : Type 0 where
  pub taken : Bytes
  pub left : Bytes
  pub splits : text ≡ taken ++ left
  pub advance : s.advance ≡ length taken
  pub progress : 1 ≤ length taken
  pub measured : Counts no_span taken s ⊎ (left ≡ [])
  pub blank : kind ≡ whitespace → all is_blank taken ≡ true
  pub commented : kind ≡ comment → opens_comment taken ≡ true

Scans-take :
    (kind : TokKind) (n : ℕ) (text : Bytes) (s : Span)
    → 1 ≤ n
    → n ≤ length text
    → s.advance ≡ n
    → Counts no_span (take n text) s
    → kind ≢ whitespace
    → (kind ≡ comment → opens_comment (take n text) ≡ true)
    → Scans text kind s
Scans-take kind n text s pos fits adv c solid opens = record {
  taken = take n text;
  left = drop n text;
  splits = sym (take-append-drop n text);
  advance = adv ∙ sym (length-take n text fits);
  progress = omega (arith, length-take n text fits);
  measured = inl c;
  blank = λ e. absurd (solid e);
  commented = opens;
}

Scans-flat :
    (kind : TokKind) (n : ℕ) (text : Bytes)
    → 1 ≤ n
    → IsFlat n text
    → kind ≢ whitespace
    → (kind ≡ comment → opens_comment (take n text) ≡ true)
    → Scans text kind (flat_span n)
Scans-flat kind n text pos f solid opens =
    Scans-take kind n text (flat_span n) pos f.within refl
      (subst (λ m. Counts no_span (take n text) (flat_span m)) (length-take n text f.within)
        (Counts-flat_span (take n text) f.flat))
      solid opens

Scans-measured :
    (kind : TokKind) (n : ℕ) (text : Bytes)
    → 1 ≤ n
    → n ≤ length text
    → kind ≢ whitespace
    → kind ≢ comment
    → Scans text kind (span_lines no_span (take n text))
Scans-measured kind n text pos fits solid live =
    let c = Counts-span_lines no_span (take n text) in
    Scans-take kind n text (span_lines no_span (take n text)) pos fits
      (omega (arith, c.advance, length-take n text fits)) c solid (λ e. absurd (live e))

Scans-blanks :
    (b : ℕ) (bs : Bytes)
    → is_blank b ≡ true
    → Scans (b ∷ bs) whitespace (scan_whitespace no_span (b ∷ bs))
unfolding scan_whitespace
Scans-blanks b bs e =
    let run = scan_whitespace-PassesBlanks (count_byte b no_span) bs in
    let counts = Counts-count_byte b no_span run.taken run.counts in
    rw e (record {
      taken = b ∷ run.taken;
      left = run.left;
      splits = ap (◌∷◌ b) run.splits;
      advance = omega (arith, counts.advance);
      progress = omega arith;
      measured = inl counts;
      blank = λ _. rw e run.blank;
      commented = λ c. cc;
    })

Scans-line_comment :
    (b : ℕ) (bs : Bytes)
    → (b == b'-' && next_is b'-' bs) ≡ true
    → Scans (b ∷ bs) comment (flat_span (suc (suc (scan_line (drop 1 bs)))))
Scans-line_comment b [] e = absurd (ground arith)
Scans-line_comment b (c ∷ cs) e =
    let f = scan_line-IsFlat cs in
    Scans-flat comment (suc (suc (scan_line cs))) (b ∷ c ∷ cs) (omega arith)
      (IsFlat-suc b _ (c ∷ cs) (ground arith) (IsFlat-suc c _ cs (ground arith) f)) (cc)
      (λ _. ground arith)

Scans-closed :
    (b c : ℕ) (cs : Bytes) (s : Span)
    → (b == b'/' && c == b'*') ≡ true
    → Passes (two_bytes no_span) cs s
    → Scans (b ∷ c ∷ cs) comment s
Scans-closed b c cs s e q =
    let counts = Counts-two_bytes b c no_span q.taken (ground arith) (ground arith) q.counts in
    record {
      taken = b ∷ c ∷ q.taken;
      left = q.left;
      splits = ap (λ l. b ∷ c ∷ l) q.splits;
      advance = omega (arith, counts.advance);
      progress = omega arith;
      measured = inl counts;
      blank = λ x. cc;
      commented = λ _. ground arith;
    }

Scans-block_comment :
    (b : ℕ) (bs : Bytes)
    → (b == b'/' && next_is b'*' bs) ≡ true
    → Scans (b ∷ bs) comment (block_span (scan_block 1 (two_bytes no_span) (drop 1 bs)) (b ∷ bs))
unfolding block_span
Scans-block_comment b [] e = absurd (ground arith)
Scans-block_comment b (c ∷ cs) e =
    let r = scan_block 1 (two_bytes no_span) cs in
    if_cases (Scans (b ∷ c ∷ cs) comment) (ltb 0 r.depth) _ _
      (λ _. record {
        taken = b ∷ c ∷ cs;
        left = [];
        splits = sym (append-nil (b ∷ c ∷ cs));
        advance = refl;
        progress = omega arith;
        measured = inr refl;
        blank = λ x. cc;
        commented = λ _. ground arith;
      })
      (λ closed.
        Scans-closed b c cs r.span e
          (scan_block-Passes 1 (two_bytes no_span) cs (omega arith) (ground arith)))

is_name_byte-ne_newline : (b : ℕ) → is_name_byte b ≡ true → (b == b'\n') ≡ false
unfolding is_alnum
is_name_byte-ne_newline b h = ground arith

is_number_byte-ne_newline : (b : ℕ) → is_number_byte b ≡ true → (b == b'\n') ≡ false
unfolding is_digit
is_number_byte-ne_newline b h = ground arith

is_blank-newline : (b : ℕ) → is_blank b ≡ false → (b == b'\n') ≡ false
unfolding is_blank
is_blank-newline b h = ground arith

Scans-run :
    (kind : TokKind) (p : ℕ → Bool) (b : ℕ) (bs : Bytes)
    → is_blank b ≡ false
    → ((c : ℕ) → p c ≡ true → (c == b'\n') ≡ false)
    → kind ≢ whitespace
    → kind ≢ comment
    → Scans (b ∷ bs) kind (flat_span (suc (scan_while p bs)))
Scans-run kind p b bs e h solid live =
    Scans-flat kind (suc (scan_while p bs)) (b ∷ bs) (omega arith)
      (IsFlat-suc b _ bs (is_blank-newline b e) (scan_while-IsFlat p h bs)) solid
      (λ c. absurd (live c))

abbrev ScansPair : Bytes → TokKind × Span → Type 0
ScansPair text r = Scans text r.0 r.1

-- Every branch of the `match` takes at least one byte, and counts what it takes.
pub scan-Scans : (b : ℕ) (bs : Bytes) → Scans (b ∷ bs) (scan b bs).0 (scan b bs).1
unfolding scan
scan-Scans b bs =
    let P = ScansPair (b ∷ bs) in
    if_cases P (is_blank b) _ _ (Scans-blanks b bs) λ solid.
      if_cases P (b == b'-' && next_is b'-' bs) _ _ (Scans-line_comment b bs) λ _.
        if_cases P (b == b'/' && next_is b'*' bs) _ _ (Scans-block_comment b bs) λ _.
          if_cases P (b == b'\'') _ _
            (λ _.
              Scans-measured string (suc (scan_quoted b'\'' bs)) (b ∷ bs) (omega arith)
                (omega (arith, scan_quoted-le b'\'' bs)) (cc) (cc))
            λ _.
              if_cases P (b == b'"') _ _
                (λ _.
                  Scans-measured word (suc (scan_quoted b'"' bs)) (b ∷ bs) (omega arith)
                    (omega (arith, scan_quoted-le b'"' bs)) (cc) (cc))
                λ _.
                  if_cases P (b == b'[') _ _
                    (λ _.
                      Scans-measured word (suc (scan_bracket bs)) (b ∷ bs) (omega arith)
                        (omega (arith, scan_bracket-le bs)) (cc) (cc))
                    λ _.
                      if_cases P (is_name_start b) _ _
                        (λ _.
                          Scans-run word is_name_byte b bs solid is_name_byte-ne_newline (cc) (cc))
                        λ _.
                          if_cases P (is_digit b) _ _
                            (λ _.
                              Scans-run number is_number_byte b bs solid is_number_byte-ne_newline
                                (cc) (cc))
                            (λ _.
                              Scans-flat punct 1 (b ∷ bs) (omega arith)
                                (IsFlat-suc b 0 bs (is_blank-newline b solid)
                                  (record { within = omega arith; flat = refl }))
                                (cc) (λ c. cc))
