-- ===== src/Tokens/Measure.antt =====
-- What the inner loops of crates/analyzer-core/src/tokens.rs count, against line feeds counted by
-- a plain recursion on the bytes they pass.
use dbopt.Base.{
  ℕ, zero, suc, ◌+◌, ◌-◌, ◌≤◌, ◌≡◌, refl, ap, ◌∙◌, Bool, true, false, ◌&&◌, inl, inr, [], ◌∷◌, ◌++◌,
  ◌==◌, if◌then◌else◌, length, take, all, arith, Bool-cases, if_cases,
}
use dbopt.Base.Bytes.{Bytes}
use dbopt.Tokens.{
  Span, no_span, count_byte, span_lines, flat_span, is_blank, scan_whitespace, scan_line, Block,
  two_bytes, scan_block, scan_quoted, scan_bracket, scan_while,
}

-- Line feeds in a text.
abbrev pub newlines : Bytes → ℕ
newlines [] = 0
newlines (b ∷ bs) = (if b == b'\n' then 1 else 0) + newlines bs

-- Bytes behind the last line feed of a text that stands behind `n` bytes of the same line.
abbrev pub since_newline : ℕ → Bytes → ℕ
since_newline n [] = n
since_newline n (b ∷ bs) = since_newline (if b == b'\n' then 0 else n + 1) bs

pub newlines-append : (a b : Bytes) → newlines (a ++ b) ≡ newlines a + newlines b
newlines-append [] b = omega arith
newlines-append (x ∷ a) b = omega (arith, newlines-append a b)

pub since_newline-append :
    (n : ℕ) (a b : Bytes) → since_newline n (a ++ b) ≡ since_newline (since_newline n a) b
since_newline-append n [] b = refl
since_newline-append n (x ∷ a) b = since_newline-append (if x == b'\n' then 0 else n + 1) a b

-- With no line feed the text only adds its length.
pub since_newline_flat : (n : ℕ) (a : Bytes) → newlines a ≡ 0 → since_newline n a ≡ n + length a
since_newline_flat n [] h = omega arith
since_newline_flat n (x ∷ a) h = ground (arith, since_newline_flat (n + 1) a)

-- With one, what stood before does not matter.
pub since_newline_fresh :
    (n m : ℕ) (a : Bytes) → 1 ≤ newlines a → since_newline n a ≡ since_newline m a
since_newline_fresh n m [] h = absurd (omega arith)
since_newline_fresh n m (x ∷ a) h = ground (arith, since_newline_fresh (n + 1) (m + 1) a)

pub since_newline-le : (n : ℕ) (a : Bytes) → since_newline n a ≤ n + length a
since_newline-le n [] = omega arith
since_newline-le n (x ∷ a) = ground (arith, since_newline-le (n + 1) a, since_newline-le 0 a)

pub newlines-le : (a : Bytes) → newlines a ≤ length a
newlines-le [] = omega arith
newlines-le (x ∷ a) = ground (arith, newlines-le a)

-- From `s`, the bytes `w` lead to `t`.
pub record Counts (s : Span) (w : Bytes) (t : Span) : Type 0 where
  pub advance : t.advance ≡ s.advance + length w
  pub newline_count : t.newlines ≡ s.newlines + newlines w
  pub last : t.last ≡ since_newline s.last w

pub Counts-nil : (s : Span) → Counts s [] s
Counts-nil s = record { advance = omega arith; newline_count = omega arith; last = refl }

pub Counts-count_byte :
    (b : ℕ) (s : Span) (w : Bytes) {t : Span} → Counts (count_byte b s) w t → Counts s (b ∷ w) t
unfolding count_byte
Counts-count_byte b s w c = ground (arith, c.advance, c.newline_count, c.last)

pub Counts-span_lines : (s : Span) (w : Bytes) → Counts s w (span_lines s w)
unfolding span_lines
Counts-span_lines s [] = Counts-nil s
Counts-span_lines s (b ∷ w) = Counts-count_byte b s w (Counts-span_lines (count_byte b s) w)

pub Counts-flat_span : (w : Bytes) → newlines w ≡ 0 → Counts no_span w (flat_span (length w))
Counts-flat_span w h = record {
  advance = omega arith;
  newline_count = omega arith;
  last = omega (arith, since_newline_flat 0 w h);
}

-- The text splits into the bytes that a scan from `s` to `t` passes and what is left.
pub record Passes (s : Span) (text : Bytes) (t : Span) : Type 0 where
  pub taken : Bytes
  pub left : Bytes
  pub splits : text ≡ taken ++ left
  pub counts : Counts s taken t

Passes-count_byte :
    (b : ℕ) (s : Span) (text : Bytes) {t : Span}
    → Passes (count_byte b s) text t
    → Passes s (b ∷ text) t
Passes-count_byte b s text p = record {
  taken = b ∷ p.taken;
  left = p.left;
  splits = ap (◌∷◌ b) p.splits;
  counts = Counts-count_byte b s p.taken p.counts;
}

-- A run of blanks: the bytes passed are blanks.
pub record PassesBlanks (s : Span) (text : Bytes) (t : Span) : Type 0 where
  pub passes : Passes s text t
  pub open passes use *
  pub blank : all is_blank passes.taken ≡ true

PassesBlanks-stop : (s : Span) (text : Bytes) → PassesBlanks s text s
PassesBlanks-stop s text = record {
  passes = record { taken = []; left = text; splits = refl; counts = Counts-nil s };
  blank = refl;
}

pub scan_whitespace-PassesBlanks :
    (s : Span) (text : Bytes) → PassesBlanks s text (scan_whitespace s text)
unfolding scan_whitespace Passes-count_byte
scan_whitespace-PassesBlanks s [] = PassesBlanks-stop s []
scan_whitespace-PassesBlanks s (b ∷ bs) = elim (Bool-cases (is_blank b)) [
  | inl e ↦
      let rec = scan_whitespace-PassesBlanks (count_byte b s) bs in
      rw e (record { passes = Passes-count_byte b s bs rec.passes; blank = rw e rec.blank })
  | inr e ↦ rw e (PassesBlanks-stop s (b ∷ bs))
]

pub Counts-two_bytes :
    (a b : ℕ) (s : Span) (w : Bytes) {t : Span}
    → (a == b'\n') ≡ false
    → (b == b'\n') ≡ false
    → Counts (two_bytes s) w t
    → Counts s (a ∷ b ∷ w) t
Counts-two_bytes a b s w h k c = record {
  advance = omega (arith, c.advance);
  newline_count = ground (arith, c.newline_count);
  last = c.last ∙ rw (h, k) (ap (λ n. since_newline n w) (omega arith));
}

Passes-two_bytes :
    (a b : ℕ) (s : Span) (text : Bytes) {t : Span}
    → (a == b'\n') ≡ false
    → (b == b'\n') ≡ false
    → Passes (two_bytes s) text t
    → Passes s (a ∷ b ∷ text) t
Passes-two_bytes a b s text h k p = record {
  taken = a ∷ b ∷ p.taken;
  left = p.left;
  splits = ap (λ l. a ∷ b ∷ l) p.splits;
  counts = Counts-two_bytes a b s p.taken h k p.counts;
}

Passes-stop : (s : Span) (text : Bytes) → Passes s text s
Passes-stop s text = record { taken = []; left = text; splits = refl; counts = Counts-nil s }

-- A block comment that the loop closes is counted to its end.
abbrev ClosedPasses : Span → Bytes → Block → Type 0
ClosedPasses s text r = r.depth ≡ 0 → Passes s text r.span

opener_bytes :
    (a b c d : ℕ)
    → (c == b'\n') ≡ false
    → (d == b'\n') ≡ false
    → (a == c && b == d) ≡ true
    → ((a == b'\n') ≡ false) × ((b == b'\n') ≡ false)
opener_bytes a b c d h k e = ground arith

pub scan_block-Passes :
    (depth : ℕ) (s : Span) (text : Bytes)
    → 1 ≤ depth
    → ClosedPasses s text (scan_block depth s text)
unfolding scan_block
scan_block-Passes depth s [] k = λ h. absurd (omega arith)
scan_block-Passes depth s (a ∷ []) k = λ h. absurd (omega arith)
scan_block-Passes depth s (a ∷ b ∷ bs) k =
    if_cases (ClosedPasses s (a ∷ b ∷ bs)) (a == b'/' && b == b'*') _ _
      (λ e h.
        let (x, y) = opener_bytes a b b'/' b'*' refl refl e in
        Passes-two_bytes a b s bs x y
          (scan_block-Passes (depth + 1) (two_bytes s) bs (omega arith) h))
      (λ _.
        if_cases (ClosedPasses s (a ∷ b ∷ bs)) (a == b'*' && b == b'/') _ _
          (λ e.
            let (x, y) = opener_bytes a b b'*' b'/' refl refl e in
            if_cases (ClosedPasses s (a ∷ b ∷ bs)) (depth - 1 == 0) _ _
              (λ _ _. Passes-two_bytes a b s bs x y (Passes-stop (two_bytes s) bs))
              (λ more h.
                Passes-two_bytes a b s bs x y
                  (scan_block-Passes (depth - 1) (two_bytes s) bs (ground arith) h)))
          (λ _ h.
            Passes-count_byte a s (b ∷ bs) (scan_block-Passes depth (count_byte a s) (b ∷ bs) k h)))

pub length-take : (n : ℕ) (text : Bytes) → n ≤ length text → length (take n text) ≡ n
length-take zero text h = refl
length-take (suc n) [] h = absurd (omega arith)
length-take (suc n) (b ∷ text) h = ap suc (length-take n text (omega arith))

-- Such a count, over bytes that hold no line feed.
pub record IsFlat (n : ℕ) (text : Bytes) : Type 0 where
  pub within : n ≤ length text
  pub flat : newlines (take n text) ≡ 0

pub IsFlat-suc :
    (b n : ℕ) (bs : Bytes) → (b == b'\n') ≡ false → IsFlat n bs → IsFlat (suc n) (b ∷ bs)
IsFlat-suc b n bs h f = record {
  within = omega (arith, f.within);
  flat = rw h (omega (arith, f.flat));
}

IsFlat-zero : (bs : Bytes) → IsFlat 0 bs
IsFlat-zero bs = record { within = omega arith; flat = refl }

pub scan_line-IsFlat : (bs : Bytes) → IsFlat (scan_line bs) bs
unfolding scan_line
scan_line-IsFlat [] = IsFlat-zero []
scan_line-IsFlat (b ∷ bs) =
    if_cases (λ n. IsFlat n (b ∷ bs)) (b == b'\n') _ _ (λ _. IsFlat-zero (b ∷ bs))
      (λ e. IsFlat-suc b _ bs e (scan_line-IsFlat bs))

pub scan_while-IsFlat :
    (p : ℕ → Bool)
    → ((b : ℕ) → p b ≡ true → (b == b'\n') ≡ false)
    → (bs : Bytes) → IsFlat (scan_while p bs) bs
unfolding scan_while
scan_while-IsFlat p h [] = IsFlat-zero []
scan_while-IsFlat p h (b ∷ bs) =
    if_cases (λ n. IsFlat n (b ∷ bs)) (p b) _ _
      (λ e. IsFlat-suc b _ bs (h b e) (scan_while-IsFlat p h bs)) (λ _. IsFlat-zero (b ∷ bs))

pub scan_quoted-le : (q : ℕ) (bs : Bytes) → scan_quoted q bs ≤ length bs
unfolding scan_quoted
scan_quoted-le q [] = omega arith
scan_quoted-le q (a ∷ []) = omega arith
scan_quoted-le q (a ∷ b ∷ bs) = ground (arith, scan_quoted-le q bs, scan_quoted-le q (b ∷ bs))

pub scan_bracket-le : (bs : Bytes) → scan_bracket bs ≤ length bs
unfolding scan_bracket
scan_bracket-le [] = omega arith
scan_bracket-le (b ∷ bs) = ground (arith, scan_bracket-le bs)
