-- ===== src/Suppress.antt =====
-- crates/analyzer-cli/src/suppress.rs: rule suppression. The `HashMap` from lines to scopes is an
-- association list with one entry for each line that a directive names.
pub mod Refine
mod Tests
pub mod Inert
pub mod Names
use dbopt.Base.{
  ℕ, zero, suc, ◌+◌, Bool, true, false, not, ◌&&◌, ◌||◌, Option, none, some, List, [], ◌∷◌, ◌++◌,
  ◌==◌, if◌then◌else◌, u32, length, drop, any,
}
use dbopt.Base.Bytes.{Bytes, codes, eq_bytes, eq_ignore_case, lowercase, starts_with}
use dbopt.Base.Text.{
  trim, white_size, is_empty, split_from, lines, find, strip_suffix, before, contains_byte,
  count_byte_of,
}
use dbopt.Base.Utf8.{is_cont}
use dbopt.Tokens.{TokKind, word, number, string, punct, comment, whitespace, Token, tokenize}

abbrev dotted : Bytes → Bytes
dotted prefix = prefix ++ b'.' ∷ []

-- `*`, or `all` in any case.
unfoldable pub is_wildcard : Bytes → Bool
unfolding eq_bytes eq_ignore_case
is_wildcard spec = eq_bytes spec (codes "*") || eq_ignore_case spec (codes "all")

-- `rule_lc == prefix || rule_lc.starts_with("{prefix}.")` behind a stripped `.*`
abbrev matches_glob : Bytes → Bytes → Bool
matches_glob prefix rule_lc = eq_bytes rule_lc prefix || starts_with (dotted prefix) rule_lc

-- spec_matches behind the strip of a glob's `.*`
abbrev matches_plain : Bytes → Bytes → Bool
matches_plain spec rule =
    if eq_ignore_case spec rule
    then true
    else not (contains_byte b'.' spec) && starts_with (dotted (lowercase spec)) (lowercase rule)

-- spec_matches behind its `trim`
unfoldable pub trimmed_matches : Bytes → Bytes → Bool
unfolding is_wildcard eq_bytes eq_ignore_case lowercase starts_with strip_suffix contains_byte
trimmed_matches spec rule =
    if is_empty spec
    then false
    else if is_wildcard spec
    then true
    else elim (strip_suffix (codes ".*") spec) [
      | some prefix ↦ matches_glob (lowercase prefix) (lowercase rule)
      | none ↦ matches_plain spec rule
    ]

unfoldable pub spec_matches : Bytes → Bytes → Bool
unfolding trimmed_matches trim
spec_matches spec rule = trimmed_matches (trim spec) rule

abbrev is_separator : ℕ → Bool
is_separator c = c == b',' || c == b' ' || c == b'\t'

abbrev keep_full : List Bytes → List Bytes
keep_full [] = []
keep_full (s ∷ ss) = let rest = keep_full ss in if is_empty (trim s) then rest else trim s ∷ rest

unfoldable pub split_specs : Bytes → List Bytes
unfolding split_from trim
split_specs raw = keep_full (split_from is_separator [] raw)

pub record Scope : Type 0 where
  pub all : Bool
  pub specs : List Bytes

abbrev pub empty_scope : Scope
empty_scope = record { all = false; specs = [] }

-- One round of the loop of Scope::add over the specs that are given.
unfoldable pub add_spec : Scope → Bytes → Scope
unfolding is_wildcard
add_spec sc s =
    if is_wildcard s then record sc { all = true } else record sc { specs = sc.specs ++ s ∷ [] }

unfoldable pub add_specs : Scope → List Bytes → Scope
unfolding add_spec
add_specs sc [] = sc
add_specs sc (s ∷ ss) = add_specs (add_spec sc s) ss

abbrev add_listed : Scope → List Bytes → Scope
add_listed sc [] = record sc { all = true }
add_listed sc (s ∷ ss) = add_specs sc (s ∷ ss)

-- Scope::add
unfoldable pub add : Scope → Bytes → Scope
unfolding split_specs add_specs
add sc raw = add_listed sc (split_specs raw)

-- Scope::covers
unfoldable pub scope_covers : Scope → Bytes → Bool
unfolding spec_matches
scope_covers sc rule = sc.all || any (λ s. spec_matches s rule) sc.specs

-- Scope::is_empty
abbrev pub scope_is_empty : Scope → Bool
scope_is_empty sc = not sc.all && is_empty sc.specs

abbrev pub LineScopes : Type 0
LineScopes = List (ℕ × Scope)

-- HashMap::get
unfoldable pub scope_at : ℕ → LineScopes → Option Scope
scope_at line [] = none
scope_at line ((n, sc) ∷ m) = let later = scope_at line m in if n == line then some sc else later

-- `lines.entry(line).or_default().add(args)`
unfoldable pub add_at : ℕ → Bytes → LineScopes → LineScopes
unfolding add
add_at line args [] = (line, add empty_scope args) ∷ []
add_at line args ((n, sc) ∷ m) =
    let later = (n, sc) ∷ add_at line args m in if n == line then (n, add sc args) ∷ m else later

pub record FileSuppressions : Type 0 where
  pub file : Scope
  pub by_line : LineScopes

abbrev pub no_suppressions : FileSuppressions
no_suppressions = record { file = empty_scope; by_line = [] }

-- find_directive_start
unfoldable pub find_directive_start : Bytes → Option ℕ
unfolding find lowercase
find_directive_start line = find (codes "dbopt-ignore") (lowercase line)

-- `rest.get(..n)`: none if that is out of range or inside a character.
unfoldable pub get_prefix : ℕ → Bytes → Option Bytes
get_prefix zero [] = some []
get_prefix zero (b ∷ s) = if is_cont b then none else some []
get_prefix (suc n) [] = none
get_prefix (suc n) (b ∷ s) = elim (get_prefix n s) [ none ↦ none | some p ↦ some (b ∷ p) ]

abbrev skip_colons : Bytes → Bytes
skip_colons [] = []
skip_colons (b ∷ s) = let rest = skip_colons s in if b == b':' then rest else b ∷ s

-- strip_comment_tail
unfoldable pub strip_comment_tail : Bytes → Bytes
unfolding before trim
strip_comment_tail args = trim (skip_colons (before (codes "*/") args))

abbrev is_white_head : Bytes → Bool
is_white_head s = not (white_size s == 0)

-- The `match` on the character behind the keyword.
unfoldable pub tail_args : Bytes → Option Bytes
unfolding white_size strip_comment_tail starts_with
tail_args [] = some []
tail_args (c ∷ s) =
    if is_white_head (c ∷ s) || c == b':'
    then some (strip_comment_tail (c ∷ s))
    else if starts_with (codes "*/") (c ∷ s)
    then some []
    else none

unfoldable pub directive_args : Bytes → Bytes → Option Bytes
unfolding get_prefix eq_ignore_case tail_args
directive_args rest keyword = elim (get_prefix (length keyword) rest) [
  | none ↦ none
  | some head ↦
      if not (eq_ignore_case head keyword) then none else tail_args (drop (length keyword) rest)
]

-- Where a directive applies.
pub data Target : Type 0 where
  whole_file : Target
  at_line : ℕ → Target

-- The ladder of `if let` over the three keywords, longest first, on the text from the directive on.
unfoldable pub directive_in : ℕ → ℕ → Bytes → Option (Target × Bytes)
unfolding directive_args
directive_in lineno after_comment rest = elim (directive_args rest (codes "dbopt-ignore-file")) [
  | some args ↦ some (whole_file, args)
  | none ↦ elim (directive_args rest (codes "dbopt-ignore-next-line")) [
    | some args ↦ some (at_line after_comment, args)
    | none ↦ elim (directive_args rest (codes "dbopt-ignore")) [
      | some args ↦ some (at_line lineno, args)
      | none ↦ none
    ]
  ]
]

-- What one line of a comment says.
unfoldable pub line_directive : ℕ → ℕ → Bytes → Option (Target × Bytes)
unfolding find_directive_start directive_in
line_directive lineno after_comment raw = elim (find_directive_start raw) [
  | none ↦ none
  | some at ↦ directive_in lineno after_comment (drop at raw)
]

abbrev apply_to : FileSuppressions → Target → Bytes → FileSuppressions
apply_to out whole_file args = record out { file = add out.file args }
apply_to out (at_line n) args = record out { by_line = add_at n args out.by_line }

unfoldable pub apply : FileSuppressions → Option (Target × Bytes) → FileSuppressions
unfolding add add_at
apply out none = out
apply out (some (t, args)) = apply_to out t args

-- The loop over the lines of one comment; `lineno` is `tok.line + offset`.
unfoldable pub parse_lines : ℕ → ℕ → FileSuppressions → List Bytes → FileSuppressions
unfolding line_directive apply
parse_lines lineno after_comment out [] = out
parse_lines lineno after_comment out (raw ∷ rest) =
    parse_lines (u32 (lineno + 1)) after_comment
      (apply out (line_directive lineno after_comment raw)) rest

-- The line after the one on which the comment closes.
abbrev pub line_after : Token → ℕ
line_after tok = u32 (u32 (tok.line + u32 (count_byte_of b'\n' tok.text)) + 1)

unfoldable pub is_comment : TokKind → Bool
is_comment comment = true
is_comment word = false
is_comment number = false
is_comment string = false
is_comment punct = false
is_comment whitespace = false

-- One round of the loop over the tokens, with its filter on comments.
unfoldable pub parse_token : FileSuppressions → Token → FileSuppressions
unfolding parse_lines lines count_byte_of is_comment
parse_token out tok =
    if is_comment tok.kind then parse_lines tok.line (line_after tok) out (lines tok.text) else out

unfoldable pub parse_tokens : FileSuppressions → List Token → FileSuppressions
unfolding parse_token
parse_tokens out [] = out
parse_tokens out (tok ∷ toks) = parse_tokens (parse_token out tok) toks

-- FileSuppressions::parse
unfoldable pub parse : Bytes → FileSuppressions
unfolding parse_tokens tokenize
parse sql = parse_tokens no_suppressions (tokenize sql)

-- FileSuppressions::covers
unfoldable pub covers : FileSuppressions → Bytes → Option ℕ → Bool
unfolding scope_covers scope_at
covers s rule none = scope_covers s.file rule
covers s rule (some l) =
    if scope_covers s.file rule
    then true
    else elim (scope_at l s.by_line) [ none ↦ false | some sc ↦ scope_covers sc rule ]

-- FileSuppressions::is_empty
abbrev pub suppresses_nothing : FileSuppressions → Bool
suppresses_nothing s = scope_is_empty s.file && is_empty s.by_line
