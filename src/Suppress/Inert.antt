-- ===== src/Suppress/Inert.antt =====
-- What never suppresses anything: text outside comments, and misspelt directives.
use dbopt.Base.{
  ℕ, zero, suc, ◌≡◌, ◌≢◌, ◌≤◌, ◌<◌, refl, ap, ◌∙◌, Bool, true, false, not, ◌⊎◌, ◌||◌, Option, none,
  some, List, [], ◌∷◌, ◌++◌, ◌==◌, length, take, drop, any, all, arith, Bool-cases, inl, inr,
}
use dbopt.Base.Bytes.{Bytes, codes, is_alnum, to_lower, eq_ignore_case}
use dbopt.Base.Text.{white_size}
use dbopt.Tokens.{Token, no_span, span_lines, next_is, move, first_cursor, tokenize_from, tokenize}
use dbopt.Tokens.Literals.{doubled, tokenize-cons, literal, tokenize-literal}
use dbopt.Suppress.{
  FileSuppressions, no_suppressions, get_prefix, tail_args, directive_args, directive_in,
  is_comment, parse_token, parse_tokens, parse, covers,
}
use dbopt.Suppress.Refine.{says, directives, covers-parse}

-- The tokens behind a string literal with which a text begins.
abbrev pub tokens_behind : Bytes → Bytes → List Token
tokens_behind body rest =
    tokenize_from (length ((doubled b'\'' body ++ b'\'' ∷ []) ++ rest))
      (move first_cursor (span_lines no_span (literal body))) rest

-- A string literal gives no directive, whatever its body says: with one in front of a text,
-- exactly the directives of the text behind it suppress anything.
pub covers-literal :
    (body rest rule : Bytes) (line : Option ℕ)
    → next_is b'\'' rest ≡ false
    → covers (parse (literal body ++ rest)) rule line
      ≡ any (says rule line) (directives (tokens_behind body rest))
unfolding is_comment
covers-literal body rest rule line h =
    covers-parse (literal body ++ rest) rule line
    ∙ ap (λ ts. any (says rule line) (directives ts))
        (tokenize-cons b'\'' ((doubled b'\'' body ++ b'\'' ∷ []) ++ rest)
          ∙ tokenize-literal (length ((doubled b'\'' body ++ b'\'' ∷ []) ++ rest)) first_cursor body
              rest h)

-- A text none of whose tokens is a comment suppresses nothing.
parse_tokens_no_comments :
    (out : FileSuppressions) (ts : List Token)
    → all (λ t. not (is_comment t.kind)) ts ≡ true
    → parse_tokens out ts ≡ out
unfolding parse_tokens parse_token
parse_tokens_no_comments out [] h = refl
parse_tokens_no_comments out (t ∷ ts) h = elim (Bool-cases (is_comment t.kind)) [
  | inl e ↦ absurd (ground (arith, h, e))
  | inr e ↦ rw e (parse_tokens_no_comments out ts (ground (arith, h, e)))
]

pub parse_no_comments :
    (sql : Bytes)
    → all (λ t. not (is_comment t.kind)) (tokenize sql) ≡ true
    → parse sql ≡ no_suppressions
unfolding parse
parse_no_comments sql h = parse_tokens_no_comments no_suppressions (tokenize sql) h

-- A byte that continues a word.
abbrev pub is_word_byte : ℕ → Bool
is_word_byte c = is_alnum c || c == b'-' || c == b'_'

is_word_byte_bounds :
    (c : ℕ) → is_word_byte c ≡ true → (33 ≤ c) × (c < 128) × (c ≢ b':') × (c ≢ b'*')
unfolding is_alnum
is_word_byte_bounds c h = (ground arith, ground arith, λ e. ground arith, λ e. ground arith)

white_size_printable : (c : ℕ) (s : Bytes) → 33 ≤ c → c < 128 → white_size (c ∷ s) ≡ 0
unfolding white_size
white_size_printable c [] h k = ground arith
white_size_printable c (b ∷ []) h k = ground arith
white_size_printable c (b ∷ d ∷ s) h k = ground arith

tail_args_other :
    (c : ℕ) (more : Bytes)
    → white_size (c ∷ more) ≡ 0
    → (c == b':') ≡ false
    → (c == b'*') ≡ false
    → tail_args (c ∷ more) ≡ none
unfolding tail_args
tail_args_other c more w h k = rw (w, h) (ground arith)

tail_args_word_byte : (c : ℕ) (more : Bytes) → is_word_byte c ≡ true → tail_args (c ∷ more) ≡ none
tail_args_word_byte c more h =
    let (low, high, colon, star) = is_word_byte_bounds c h in
    tail_args_other c more (white_size_printable c more low high) (ground arith) (ground arith)

Option-cases {ℓ} : {A : Type ℓ} (o : Option A) → (o ≡ none) ⊎ ((a : A) × (o ≡ some a))
Option-cases none = inl refl
Option-cases (some a) = inr (a, refl)

-- With no argument list behind a keyword's length there is no directive, whatever stands before.
directive_args_no_tail :
    (rest keyword : Bytes)
    → tail_args (drop (length keyword) rest) ≡ none
    → directive_args rest keyword ≡ none
unfolding directive_args
directive_args_no_tail rest keyword t = elim (Option-cases (get_prefix (length keyword) rest)) [
  | inl e ↦ rw (e, directive_args)
  | inr (head, e) ↦ elim (Bool-cases (eq_ignore_case head keyword)) [
    | inl same ↦ rw (e, same, directive_args) t
    | inr other ↦ rw (e, other, directive_args)
  ]
]

get_prefix-some : (n : ℕ) (s : Bytes) {p : Bytes} → get_prefix n s ≡ some p → p ≡ take n s
unfolding get_prefix
get_prefix-some zero [] h = cc
get_prefix-some zero (b ∷ s) h = ground (arith, h)
get_prefix-some (suc n) [] h = cc
get_prefix-some (suc n) (b ∷ s) h = elim (Option-cases (get_prefix n s)) [
  | inl e ↦ cc (rw e at h)
  | inr (p, e) ↦ ground (arith, h, e, get_prefix-some n s e)
]

directive_args_other :
    (rest keyword : Bytes)
    → eq_ignore_case (take (length keyword) rest) keyword ≡ false
    → directive_args rest keyword ≡ none
unfolding directive_args
directive_args_other rest keyword t = elim (Option-cases (get_prefix (length keyword) rest)) [
  | inl e ↦ rw (e, directive_args)
  | inr (head, e) ↦ rw (e, get_prefix-some (length keyword) rest e, t, directive_args)
]

abbrev pub file_word : Bytes
file_word = codes "dbopt-ignore-file"

abbrev pub next_word : Bytes
next_word = codes "dbopt-ignore-next-line"

abbrev pub line_word : Bytes
line_word = codes "dbopt-ignore"

directive_in-none :
    (lineno after : ℕ) (rest : Bytes)
    → directive_args rest file_word ≡ none
    → directive_args rest next_word ≡ none
    → directive_args rest line_word ≡ none
    → directive_in lineno after rest ≡ none
unfolding directive_in
directive_in-none lineno after rest f n l = rw (f, n, l)

to_lower-ne_dash : (c : ℕ) → is_alnum c ≡ true → (to_lower c == b'-') ≡ false
unfolding is_alnum to_lower
to_lower-ne_dash c h = ground arith

dash : is_word_byte b'-' ≡ true
unfolding is_alnum
dash = refl

-- A misspelt keyword is no directive: one of the three behind which the word goes on, by a letter
-- or a digit, as in `dbopt-ignore-files`.
pub directive_in_misspelt :
    (lineno after c : ℕ) (more : Bytes)
    → is_alnum c ≡ true
    → (directive_in lineno after (file_word ++ c ∷ more) ≡ none)
      × (directive_in lineno after (next_word ++ c ∷ more) ≡ none)
      × (directive_in lineno after (line_word ++ c ∷ more) ≡ none)
unfolding eq_ignore_case
directive_in_misspelt lineno after c more h =
    let word : is_word_byte c ≡ true = ground (arith, h) in
    (
      directive_in-none lineno after (file_word ++ c ∷ more)
          (directive_args_no_tail (file_word ++ c ∷ more) file_word
            (tail_args_word_byte c more word))
          (directive_args_other (file_word ++ c ∷ more) next_word refl)
          (directive_args_no_tail (file_word ++ c ∷ more) line_word
            (tail_args_word_byte b'-' _ dash)),
      directive_in-none lineno after (next_word ++ c ∷ more)
          (directive_args_other (next_word ++ c ∷ more) file_word refl)
          (directive_args_no_tail (next_word ++ c ∷ more) next_word
            (tail_args_word_byte c more word))
          (directive_args_no_tail (next_word ++ c ∷ more) line_word
            (tail_args_word_byte b'-' _ dash)),
      directive_in-none lineno after (line_word ++ c ∷ more)
          (directive_args_other (line_word ++ c ∷ more) file_word (rw (to_lower-ne_dash c h)))
          (directive_args_other (line_word ++ c ∷ more) next_word (rw (to_lower-ne_dash c h)))
          (directive_args_no_tail (line_word ++ c ∷ more) line_word
            (tail_args_word_byte c more word)),
    )
