-- ===== src/Source/Utf8.antt =====
-- A text saved as UTF-8, with a byte order mark or without, is read back.
use dbopt.Base.{
  ℕ, ◌+◌, ◌*◌, ◌/◌, ◌≤◌, ◌<◌, ◌≡◌, refl, Bool, true, false, not, Bool-cases, inl, inr, none, List,
  [], ◌∷◌, ◌++◌, ltb, leb, ◌==◌, length, all, take, arith, zero, suc,
}
use dbopt.Base.Bytes.{Bytes, starts_with, strip_prefix}
use dbopt.Base.Utf8.{encode_char, is_scalar, encode_chars}
use dbopt.Base.Utf8.Laws.{is_utf8-encode_chars}
use dbopt.Source.{ok, Nuls, count_nuls, sniff_bomless_utf16, plain, decode_utf8_or_guess, decode}

-- The byte order mark.
abbrev pub bom : Bytes
bom = 0xEF ∷ 0xBB ∷ 0xBF ∷ []

abbrev pub has_no_nul : Bytes → Bool
has_no_nul = all (λ b. not (b == 0))

count_nuls_none :
    (even : Bool) (n : Nuls) (bs : Bytes) → has_no_nul bs ≡ true → count_nuls even n bs ≡ n
unfolding count_nuls
count_nuls_none even n [] h = refl
count_nuls_none even n (b ∷ bs) h =
    let solid : (b == 0) ≡ false = ground (arith, h) in
    rw solid (count_nuls_none (not even) n bs (ground (arith, h)))

take_no_nul : (k : ℕ) (bs : Bytes) → has_no_nul bs ≡ true → has_no_nul (take k bs) ≡ true
take_no_nul zero bs h = refl
take_no_nul (suc k) [] h = refl
take_no_nul (suc k) (b ∷ bs) h =
    let rest = take_no_nul k bs (ground (arith, h)) in ground (arith, h, rest)

length-take_le : (n k : ℕ) (bs : Bytes) → n ≤ length bs → n ≤ k → n ≤ length (take k bs)
length-take_le zero k bs h l = omega arith
length-take_le (suc n) zero bs h l = absurd (omega (arith, l))
length-take_le (suc n) (suc k) [] h l = absurd (omega (arith, h))
length-take_le (suc n) (suc k) (b ∷ bs) h l =
    let rest = length-take_le n k bs (omega (arith, h)) (omega (arith, l)) in omega (arith, rest)

too_few : (m : ℕ) → 4 ≤ m → leb (m / 2 * 8) (0 * 10) ≡ false
too_few m h = let pairs : 2 ≤ m / 2 = omega (arith, h) in ground (arith, pairs)

-- A text without NULs is not taken for UTF-16.
sniff_none : (bs : Bytes) → has_no_nul bs ≡ true → sniff_bomless_utf16 bs ≡ none
unfolding sniff_bomless_utf16
sniff_none bs h = elim (Bool-cases (ltb (length bs) 4)) [
  | inl e ↦ rw e
  | inr e ↦
      let sample = take 1024 bs in
      let counted =
        count_nuls_none true (record { even = 0; odd = 0 }) sample (take_no_nul 1024 bs h) in
      let long = length-take_le 4 1024 bs (ground (arith, e)) (omega arith) in
      rw (e, counted, too_few (length sample) long) (ground arith)
]

-- No text begins with the byte order mark of UTF-16.
begins_low :
    (a b : ℕ) (cs : List ℕ)
    → 254 ≤ a
    → all is_scalar cs ≡ true
    → starts_with (a ∷ b ∷ []) (encode_chars cs) ≡ false
unfolding encode_chars encode_char starts_with is_scalar
begins_low a b [] l h = refl
begins_low a b (c ∷ cs) l h =
    let small : c < 0x110000 = ground (arith, h) in
    elim (Bool-cases (ltb c 0x80)) [
      | inl e ↦
          let no : (a == c) ≡ false = ground (arith, e, l) in
          rw (starts_with, encode_char, e, no) refl
      | inr e ↦ elim (Bool-cases (ltb c 0x800)) [
        | inl f ↦
            let no : (a == 192 + c / 64) ≡ false = ground (arith, f, l) in
            rw (encode_char, e, f, no) refl
        | inr f ↦ elim (Bool-cases (ltb c 0x10000)) [
          | inl g ↦
              let no : (a == 224 + c / 4096) ≡ false = ground (arith, g, l) in
              rw (encode_char, e, f, g, no) refl
          | inr g ↦
              let no : (a == 240 + c / 262144) ≡ false = ground (arith, small, l) in
              rw (encode_char, e, f, g, no) refl
        ]
      ]
    ]

-- Any text without NULs is read back as it is, without a note and not as a guess, from its UTF-8 form,
-- with the byte order mark in front or, if it does not begin with that mark itself, without.
pub decode-utf8 :
    (cs : List ℕ)
    → all is_scalar cs ≡ true
    → has_no_nul (encode_chars cs) ≡ true
    → strip_prefix bom (encode_chars cs) ≡ none
    → (decode (encode_chars cs) ≡ ok (plain (encode_chars cs)))
      × (decode (bom ++ encode_chars cs) ≡ ok (plain (encode_chars cs)))
unfolding decode decode_utf8_or_guess
decode-utf8 cs h solid unmarked =
    let valid = is_utf8-encode_chars cs h in
    (
      rw
          (
            begins_low 0xFF 0xFE cs (omega arith) h,
            begins_low 0xFE 0xFF cs (omega arith) h,
            unmarked,
            sniff_none (encode_chars cs) solid,
            valid,
          )
          refl,
      rw valid refl,
    )
