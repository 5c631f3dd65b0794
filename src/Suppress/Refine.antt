-- ===== src/Suppress/Refine.antt =====
-- `FileSuppressions` against the plain list of the directives of a text: what the scopes and the
-- map from lines hold is exactly what some directive says.
use dbopt.Base.{
  ℕ, ◌+◌, ◌≡◌, refl, sym, ap, ◌∙◌, Bool, true, false, ◌&&◌, ◌||◌, Option, none, some, List, [], ◌∷◌,
  ◌++◌, ◌==◌, if◌then◌else◌, u32, any, arith, Bool-cases, inl, inr,
}
use dbopt.Base.Bytes.{Bytes}
use dbopt.Base.Text.{is_empty, lines}
use dbopt.Tokens.{Token, tokenize}
use dbopt.Suppress.{
  is_wildcard, spec_matches, split_specs, Scope, empty_scope, add_spec, add_specs, add_listed, add,
  scope_covers, LineScopes, scope_at, add_at, FileSuppressions, no_suppressions, Target, whole_file,
  at_line, line_directive, apply, parse_lines, line_after, is_comment, parse_token, parse_tokens,
  parse, covers,
}

-- One listed spec suppresses the rule.
abbrev pub spec_names : Bytes → Bytes → Bool
spec_names rule s = is_wildcard s || spec_matches s rule

-- The argument list of a directive suppresses the rule: an empty list suppresses all rules.
abbrev pub args_name : Bytes → Bytes → Bool
args_name rule args = is_empty (split_specs args) || any (spec_names rule) (split_specs args)

abbrev pub target_holds : Target → Option ℕ → Bool
target_holds whole_file line = true
target_holds (at_line n) none = false
target_holds (at_line n) (some l) = n == l

-- A directive suppresses the rule at a line.
abbrev pub says : Bytes → Option ℕ → Target × Bytes → Bool
says rule line (t, args) = target_holds t line && args_name rule args

abbrev pub cons_some {ℓ} : {A : Type ℓ} → Option A → List A → List A
cons_some none xs = xs
cons_some (some x) xs = x ∷ xs

-- The directives of the lines of a comment, in order.
abbrev pub line_directives : ℕ → ℕ → List Bytes → List (Target × Bytes)
line_directives lineno after [] = []
line_directives lineno after (raw ∷ rest) =
    cons_some (line_directive lineno after raw) (line_directives (u32 (lineno + 1)) after rest)

-- The directives of a token: none, unless it is a comment.
abbrev pub token_directives : Token → List (Target × Bytes)
token_directives t =
    if is_comment t.kind then line_directives t.line (line_after t) (lines t.text) else []

abbrev pub directives : List Token → List (Target × Bytes)
directives [] = []
directives (t ∷ ts) = token_directives t ++ directives ts

any-append {ℓ} :
    {A : Type ℓ} (p : A → Bool) (xs ys : List A) → any p (xs ++ ys) ≡ (any p xs || any p ys)
any-append p [] ys = refl
any-append p (x ∷ xs) ys = ground (arith, any-append p xs ys)

or_assoc : (a b c : Bool) → ((a || b) || c) ≡ (a || (b || c))
or_assoc a b c = ground arith

module _ (rule : Bytes) where
  covers-add_spec :
      (sc : Scope) (s : Bytes)
      → scope_covers (add_spec sc s) rule ≡ (scope_covers sc rule || spec_names rule s)
  unfolding add_spec scope_covers
  covers-add_spec sc s = ground (arith, any-append (λ t. spec_matches t rule) sc.specs (s ∷ []))

  covers-add_specs :
      (sc : Scope) (ss : List Bytes)
      → scope_covers (add_specs sc ss) rule ≡ (scope_covers sc rule || any (spec_names rule) ss)
  unfolding add_specs
  covers-add_specs sc [] = ground arith
  covers-add_specs sc (s ∷ ss) =
      covers-add_specs (add_spec sc s) ss
      ∙ ap (λ b. b || any (spec_names rule) ss) (covers-add_spec sc s)
      ∙ or_assoc (scope_covers sc rule) (spec_names rule s) (any (spec_names rule) ss)

  covers-add_listed :
      (sc : Scope) (ss : List Bytes)
      → scope_covers (add_listed sc ss) rule
        ≡ (scope_covers sc rule || (is_empty ss || any (spec_names rule) ss))
  unfolding scope_covers
  covers-add_listed sc [] = ground arith
  covers-add_listed sc (s ∷ ss) = covers-add_specs sc (s ∷ ss)

  covers-add :
      (sc : Scope) (args : Bytes)
      → scope_covers (add sc args) rule ≡ (scope_covers sc rule || args_name rule args)
  unfolding add
  covers-add sc args = covers-add_listed sc (split_specs args)

  covers-empty_scope : scope_covers empty_scope rule ≡ false
  unfolding scope_covers
  covers-empty_scope = refl

  -- The scope of a line, if there is one.
  abbrev option_covers : Option Scope → Bool
  option_covers none = false
  option_covers (some sc) = scope_covers sc rule

  line_covers-add_at :
      (l n : ℕ) (args : Bytes) (m : LineScopes)
      → option_covers (scope_at l (add_at n args m))
        ≡ (option_covers (scope_at l m) || (n == l && args_name rule args))
  unfolding scope_at add_at
  line_covers-add_at l n args [] = ground (arith, covers-add empty_scope args, covers-empty_scope)
  line_covers-add_at l n args ((k, sc) ∷ m) =
      ground (arith, covers-add sc args, line_covers-add_at l n args m)

  covers-apply :
      (out : FileSuppressions) (line : Option ℕ) (d : Option (Target × Bytes))
      → covers (apply out d) rule line
        ≡ (covers out rule line || any (says rule line) (cons_some d []))
  unfolding covers apply
  covers-apply out line none = ground arith
  covers-apply out none (some (whole_file, args)) = ground (arith, covers-add out.file args)
  covers-apply out none (some (at_line n, args)) = ground arith
  covers-apply out (some l) (some (whole_file, args)) = ground (arith, covers-add out.file args)
  covers-apply out (some l) (some (at_line n, args)) =
      ground (arith, line_covers-add_at l n args out.by_line)

  any-cons_some :
      (line : Option ℕ) (d : Option (Target × Bytes)) (ds : List (Target × Bytes))
      → any (says rule line) (cons_some d ds)
        ≡ (any (says rule line) (cons_some d []) || any (says rule line) ds)
  any-cons_some line none ds = refl
  any-cons_some line (some d) ds = ground arith

  covers-parse_lines :
      (line : Option ℕ) (lineno after : ℕ) (out : FileSuppressions) (raws : List Bytes)
      → covers (parse_lines lineno after out raws) rule line
        ≡ (covers out rule line || any (says rule line) (line_directives lineno after raws))
  unfolding parse_lines
  covers-parse_lines line lineno after out [] = ground arith
  covers-parse_lines line lineno after out (raw ∷ raws) =
      let d = line_directive lineno after raw in
      let ds = line_directives (u32 (lineno + 1)) after raws in
      covers-parse_lines line (u32 (lineno + 1)) after (apply out d) raws
      ∙ ap (λ b. b || any (says rule line) ds) (covers-apply out line d)
      ∙ or_assoc (covers out rule line) (any (says rule line) (cons_some d []))
          (any (says rule line) ds)
      ∙ ap (λ b. covers out rule line || b) (sym (any-cons_some line d ds))

  covers-parse_token :
      (line : Option ℕ) (out : FileSuppressions) (t : Token)
      → covers (parse_token out t) rule line
        ≡ (covers out rule line || any (says rule line) (token_directives t))
  unfolding parse_token
  covers-parse_token line out t = elim (Bool-cases (is_comment t.kind)) [
    | inl e ↦ rw e (covers-parse_lines line t.line (line_after t) out (lines t.text))
    | inr e ↦ rw e (ground arith)
  ]

  covers-parse_tokens :
      (line : Option ℕ) (out : FileSuppressions) (ts : List Token)
      → covers (parse_tokens out ts) rule line
        ≡ (covers out rule line || any (says rule line) (directives ts))
  unfolding parse_tokens
  covers-parse_tokens line out [] = ground arith
  covers-parse_tokens line out (t ∷ ts) =
      covers-parse_tokens line (parse_token out t) ts
      ∙ ap (λ b. b || any (says rule line) (directives ts)) (covers-parse_token line out t)
      ∙ or_assoc (covers out rule line) (any (says rule line) (token_directives t))
          (any (says rule line) (directives ts))
      ∙ ap (λ b. covers out rule line || b)
          (sym (any-append (says rule line) (token_directives t) (directives ts)))

  covers-no_suppressions : (line : Option ℕ) → covers no_suppressions rule line ≡ false
  unfolding covers scope_covers scope_at
  covers-no_suppressions none = refl
  covers-no_suppressions (some l) = refl

-- A finding of the rule at the line, or at no line, is suppressed exactly if some directive in a
-- comment of the text says so: one for the whole file, or one for that line, whose argument list is
-- empty or names the rule.
pub covers-parse :
    (sql rule : Bytes) (line : Option ℕ)
    → covers (parse sql) rule line ≡ any (says rule line) (directives (tokenize sql))
unfolding parse
covers-parse sql rule line =
    covers-parse_tokens rule line no_suppressions (tokenize sql) ∙ rw covers-no_suppressions
