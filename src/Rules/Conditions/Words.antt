-- ===== src/Rules/Conditions/Words.antt =====
-- The keywords that open a search condition, among all tests on a token.
use dbopt.Base.{
  ℕ, ◌≡◌, refl, ◌∙◌, sym, subst, Bool, true, false, not, ◌||◌, Bool-cases, inl, inr, some, List, [],
  ◌∷◌, get_elem?, all, arith,
}
use dbopt.Base.Bytes.{Bytes, codes, eq_bytes, eq_ignore_case}
use dbopt.Base.Bytes.Laws.{eq_bytes_iff, eq_ignore_case_iff}
use dbopt.Tokens.{TokKind, word, Token, word_eq_ci}
use dbopt.Rules.{is_word_kind, is_comment_kind, is_keyword, is_keyword_at, is_batch_separator}
use dbopt.Rules.Conditions.{Walk, open_condition, read_word, mark}

-- A text is spelled like one keyword at most.
pub eq_ignore_case-other :
    (s a b : Bytes)
    → eq_ignore_case s a ≡ true
    → eq_ignore_case a b ≡ false
    → eq_ignore_case s b ≡ false
eq_ignore_case-other s a b h n = elim (Bool-cases (eq_ignore_case s b)) [
  | inl e ↦
      let same = sym ((eq_ignore_case_iff s a).0 h) ∙ (eq_ignore_case_iff s b).0 e in
      let yes : eq_ignore_case a b ≡ true = (eq_ignore_case_iff a b).1 same in absurd cc
  | inr e ↦ e
]

abbrev pub is_opener : List Token → ℕ → Bool
is_opener tokens i =
    is_keyword_at tokens i (codes "WHERE") || is_keyword_at tokens i (codes "HAVING")

-- Spelled like none of these.
abbrev is_apart : List Bytes → Bytes → Bool
is_apart others kw = all (λ o. not (eq_ignore_case kw o)) others

abbrev tested : List Bytes
tested =
    codes "("
    ∷ codes ")"
    ∷ codes ";"
    ∷ codes "GO"
    ∷ codes "CASE"
    ∷ codes "END"
    ∷ codes "ELSE"
    ∷ codes "WHEN"
    ∷ []

word_no_comment : (k : TokKind) → is_word_kind k ≡ true → is_comment_kind k ≡ false
word_no_comment word h = refl
word_no_comment _ h = absurd cc

module _ (tokens : List Token) (i : ℕ) (t : Token) (here : get_elem? tokens i ≡ some t) where
  -- The token at hand is a word with this spelling.
  pub record Spelled (kw : Bytes) : Type 0 where
    a_word : is_word_kind t.kind ≡ true
    pub text : eq_ignore_case t.text kw ≡ true

  pub keyword-Spelled : (kw : Bytes) → is_keyword_at tokens i kw ≡ true → Spelled kw
  unfolding is_keyword_at is_keyword word_eq_ci
  keyword-Spelled kw h =
      let g = rw here at h in record { a_word = ground (arith, g); text = ground (arith, g) }

  pub other_keyword :
      (kw other : Bytes)
      → Spelled kw
      → eq_ignore_case kw other ≡ false
      → is_keyword_at tokens i other ≡ false
  other_keyword kw other s n = elim (Bool-cases (is_keyword_at tokens i other)) [
    | inl e ↦
        let no = eq_ignore_case-other t.text kw other s.text n in
        let yes = (keyword-Spelled other e).text in absurd cc
    | inr e ↦ e
  ]

  Spelled-text :
      (kw : Bytes) (s : Bytes)
      → Spelled kw
      → eq_ignore_case kw s ≡ false
      → eq_bytes t.text s ≡ false
  Spelled-text kw s h n = elim (Bool-cases (eq_bytes t.text s)) [
    | inl e ↦
        let yes : eq_ignore_case s kw ≡ true =
          subst (λ a. eq_ignore_case a kw ≡ true) ((eq_bytes_iff t.text s).0 e) h.text in
        let same = (eq_ignore_case_iff kw s).1 (sym ((eq_ignore_case_iff s kw).0 yes)) in absurd cc
    | inr e ↦ e
  ]

  no_separator :
      (kw : Bytes)
      → Spelled kw
      → eq_ignore_case kw (codes "GO") ≡ false
      → is_batch_separator tokens i ≡ false
  unfolding is_batch_separator is_keyword word_eq_ci
  no_separator kw h n =
      let no = eq_ignore_case-other t.text kw (codes "GO") h.text n in rw (here, no) (ground arith)

  -- The tests that come before those on the words that open a condition all fail.
  record Reached : Type 0 where
    not_comment : is_comment_kind t.kind ≡ false
    left : eq_bytes t.text (codes "(") ≡ false
    right : eq_bytes t.text (codes ")") ≡ false
    semicolon : eq_bytes t.text (codes ";") ≡ false
    separator : is_batch_separator tokens i ≡ false
    a_word : is_word_kind t.kind ≡ true
    case_word : is_keyword_at tokens i (codes "CASE") ≡ false
    end_word : is_keyword_at tokens i (codes "END") ≡ false
    else_word : is_keyword_at tokens i (codes "ELSE") ≡ false
    when_word : is_keyword_at tokens i (codes "WHEN") ≡ false

  reach : (kw : Bytes) → Spelled kw → is_apart tested kw ≡ true → Reached
  reach kw s a = record {
    not_comment = word_no_comment t.kind s.a_word;
    left = Spelled-text kw (codes "(") s (ground (arith, a));
    right = Spelled-text kw (codes ")") s (ground (arith, a));
    semicolon = Spelled-text kw (codes ";") s (ground (arith, a));
    separator = no_separator kw s (ground (arith, a));
    a_word = s.a_word;
    case_word = other_keyword kw (codes "CASE") s (ground (arith, a));
    end_word = other_keyword kw (codes "END") s (ground (arith, a));
    else_word = other_keyword kw (codes "ELSE") s (ground (arith, a));
    when_word = other_keyword kw (codes "WHEN") s (ground (arith, a));
  }

  mark-read_word :
      (w : Walk)
      → Reached
      → mark tokens i t w
        ≡ record { walk = read_word tokens i w; id = (read_word tokens i w).top.cond }
  unfolding mark
  mark-read_word w r = rw (r.not_comment, r.left, r.right, r.semicolon, r.separator, r.a_word)

  opener_reach : is_opener tokens i ≡ true → Reached
  unfolding eq_ignore_case
  opener_reach h = elim (Bool-cases (is_keyword_at tokens i (codes "WHERE"))) [
    | inl e ↦ reach (codes "WHERE") (keyword-Spelled (codes "WHERE") e) refl
    | inr e ↦ reach (codes "HAVING") (keyword-Spelled (codes "HAVING") (ground (arith, h, e))) refl
  ]

  -- A WHERE or HAVING opens a condition with an id of its own.
  pub mark-opener :
      (w : Walk)
      → is_opener tokens i ≡ true
      → mark tokens i t w ≡ record { walk = open_condition w; id = (open_condition w).top.cond }
  unfolding read_word
  mark-opener w h =
      let r = opener_reach h in
      mark-read_word w r ∙ rw (r.case_word, r.end_word, r.else_word, r.when_word, h)
