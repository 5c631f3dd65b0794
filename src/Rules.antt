-- ===== src/Rules.antt =====
-- crates/analyzer-core/src/rules/mod.rs: the helpers on tokens that all packs of rules share. An index
-- is one of a token of the list, as in all calls of the file.
pub mod Significant
pub mod Batches
pub mod Conditions
pub mod Transactions
mod Tests
use dbopt.Base.{
  ℕ, zero, suc, ◌+◌, ◌-◌, Bool, true, false, not, ◌&&◌, ◌||◌, Option, none, some, List, [], ◌∷◌,
  ◌==◌, if◌then◌else◌, get_elem?, length,
}
use dbopt.Base.Bytes.{Bytes, codes, eq_bytes, starts_with, trim_matches}
use dbopt.Findings.{Severity, Location, Finding}
use dbopt.Tokens.{TokKind, word, comment, Token, word_eq_ci}

abbrev pub is_word_kind : TokKind → Bool
is_word_kind word = true
is_word_kind _ = false

abbrev pub is_comment_kind : TokKind → Bool
is_comment_kind comment = true
is_comment_kind _ = false

-- The test on a token that is there.
abbrev pub holds_at : (Token → Bool) → Option Token → Bool
holds_at p none = false
holds_at p (some t) = p t

-- A keyword, and no name in delimiters.
unfoldable pub is_keyword : Token → Bytes → Bool
unfolding starts_with word_eq_ci
is_keyword t kw =
    is_word_kind t.kind
    && not (starts_with (codes "[") t.text)
    && not (starts_with (codes "\"") t.text)
    && word_eq_ci t.text kw

-- Is there a token at the place that is not a comment?
unfoldable pub is_significant_at : List Token → ℕ → Bool
is_significant_at tokens k = holds_at (λ t. not (is_comment_kind t.kind)) (get_elem? tokens k)

unfoldable pub prev_significant : List Token → ℕ → Option ℕ
unfolding is_significant_at
prev_significant tokens zero = none
prev_significant tokens (suc k) =
    let before = prev_significant tokens k in if is_significant_at tokens k then some k else before

-- The loop of `next_significant` from `k` over the number of tokens that are left.
unfoldable pub next_from : List Token → ℕ → ℕ → Option ℕ
unfolding is_significant_at
next_from tokens k zero = none
next_from tokens k (suc left) =
    let later = next_from tokens (k + 1) left in
    if is_significant_at tokens k then some k else later

unfoldable pub next_significant : List Token → ℕ → Option ℕ
unfolding next_from
next_significant tokens i = next_from tokens (i + 1) (length tokens - (i + 1))

abbrev is_qualifier : List Token → Option ℕ → Bool
is_qualifier tokens none = false
is_qualifier tokens (some k) =
    holds_at (λ t. eq_bytes t.text (codes ".") || eq_bytes t.text (codes "\"")) (get_elem? tokens k)

unfoldable pub is_keyword_at : List Token → ℕ → Bytes → Bool
unfolding is_keyword prev_significant next_significant eq_bytes
is_keyword_at tokens i kw =
    holds_at (λ t. is_keyword t kw) (get_elem? tokens i)
    && not (is_qualifier tokens (prev_significant tokens i))
    && not (is_qualifier tokens (next_significant tokens i))

abbrev pub line_at : List Token → ℕ → ℕ
line_at tokens k = elim (get_elem? tokens k) [ none ↦ 0 | some t ↦ t.line ]

abbrev pub is_alone : List Token → ℕ → Option ℕ → Bool
is_alone tokens line none = true
is_alone tokens line (some k) = not (line_at tokens k == line)

unfoldable pub is_batch_separator : List Token → ℕ → Bool
unfolding is_keyword prev_significant next_significant
is_batch_separator tokens i =
    holds_at (λ t. is_keyword t (codes "GO")) (get_elem? tokens i)
    && is_alone tokens (line_at tokens i) (prev_significant tokens i)
    && is_alone tokens (line_at tokens i) (next_significant tokens i)

-- A variable or a parameter, never a column.
unfoldable pub is_variable : Token → Bool
unfolding starts_with
is_variable t = is_word_kind t.kind && starts_with (codes "@") t.text

abbrev is_bracket : ℕ → Bool
is_bracket c = c == b'[' || c == b']'

-- A name, in brackets or not.
unfoldable pub is_word : Token → Bytes → Bool
unfolding word_eq_ci trim_matches
is_word t kw = is_word_kind t.kind && word_eq_ci (trim_matches is_bracket t.text) kw

-- The closures `sys_word` and `dot` of `is_system_source`.
abbrev sys_word : List Token → ℕ → Bool
sys_word tokens k =
    holds_at (λ t. is_word t (codes "sys") || is_word t (codes "information_schema"))
      (get_elem? tokens k)

abbrev dot : List Token → ℕ → Bool
dot tokens k = holds_at (λ t. eq_bytes t.text (codes ".")) (get_elem? tokens k)

unfoldable pub is_system_source : List Token → ℕ → Bool
unfolding is_word eq_bytes
is_system_source tokens i = elim (get_elem? tokens i) [
  | none ↦ false
  | some t ↦
      if not (is_word_kind t.kind)
      then false
      else (sys_word tokens i && dot tokens (i + 1))
        || (dot tokens (i + 1) && sys_word tokens (i + 2) && dot tokens (i + 3))
]

abbrev pub make_loc : Token → Location
make_loc t = record { start = t.start; stop = t.stop; line = t.line; col = t.col }

-- The token behind a place, with its own place.
abbrev pub next_nonws : List Token → ℕ → Option (ℕ × Token)
next_nonws tokens i = elim (get_elem? tokens (i + 1)) [ none ↦ none | some t ↦ some (i + 1, t) ]

abbrev pub finding : Bytes → Severity → Bytes → Option Location → Option Bytes → Finding
finding rule severity message location recommendation = record {
  rule = rule;
  severity = severity;
  message = message;
  location = location;
  recommendation = recommendation;
  object = none;
}
