-- ===== src/Source/RoundTrip.antt =====
-- A text saved as UTF-16 with a byte order mark is read back.
use dbopt.Base.{
  ℕ, ◌+◌, ◌-◌, ◌*◌, ◌/◌, ◌%◌, ◌≡◌, refl, ap, ◌∙◌, Bool, true, false, some, List, [], ◌∷◌, ◌++◌, ltb,
  ◌==◌, if◌then◌else◌, if_cases, length, all, arith,
}
use dbopt.Base.Bytes.{Bytes}
use dbopt.Base.Utf8.{is_scalar, encode_chars}
use dbopt.Source.{
  ok, Note, utf16_le, utf16_be, units, cons_result, decode_units, utf16, sourced, is_high, is_low,
  decode,
}

-- The UTF-16 code units of scalar values.
abbrev pub encode_units : List ℕ → List ℕ
encode_units [] = []
encode_units (c ∷ cs) =
    if ltb c 0x10000
    then c ∷ encode_units cs
    else (0xD800 + (c - 0x10000) / 0x400) ∷ (0xDC00 + (c - 0x10000) % 0x400) ∷ encode_units cs

-- Their bytes, high byte first or low byte first.
abbrev pub unit_bytes : Bool → List ℕ → Bytes
unit_bytes big [] = []
unit_bytes true (u ∷ us) = (u / 256) ∷ (u % 256) ∷ unit_bytes true us
unit_bytes false (u ∷ us) = (u % 256) ∷ (u / 256) ∷ unit_bytes false us

units-unit_bytes : (big : Bool) (us : List ℕ) → units big (unit_bytes big us) ≡ us
unfolding units
units-unit_bytes big [] = refl
units-unit_bytes true (u ∷ us) = ground (arith, units-unit_bytes true us)
units-unit_bytes false (u ∷ us) = ground (arith, units-unit_bytes false us)

length-unit_bytes : (big : Bool) (us : List ℕ) → length (unit_bytes big us) ≡ 2 * length us
length-unit_bytes big [] = omega arith
length-unit_bytes true (u ∷ us) = omega (arith, length-unit_bytes true us)
length-unit_bytes false (u ∷ us) = omega (arith, length-unit_bytes false us)

decode_units_single :
    (u : ℕ) (us : List ℕ)
    → is_high u ≡ false
    → is_low u ≡ false
    → decode_units (u ∷ us) ≡ cons_result u (decode_units us)
unfolding decode_units
decode_units_single u [] h k = rw (h, k)
decode_units_single u (v ∷ us) h k = rw (h, k)

decode_units_pair :
    (u v : ℕ) (us : List ℕ)
    → is_high u ≡ true
    → is_low v ≡ true
    → decode_units (u ∷ v ∷ us)
      ≡ cons_result (0x10000 + (u - 0xD800) * 0x400 + (v - 0xDC00)) (decode_units us)
unfolding decode_units
decode_units_pair u v us h k = rw (h, k)

decode_units-encode_units :
    (cs : List ℕ) → all is_scalar cs ≡ true → decode_units (encode_units cs) ≡ ok cs
unfolding is_scalar
decode_units-encode_units [] h = unfold decode_units in refl
decode_units-encode_units (c ∷ cs) h =
    let rest = decode_units-encode_units cs (ground (arith, h)) in
    if_cases (λ us. decode_units us ≡ ok (c ∷ cs)) (ltb c 0x10000) _ _
      (λ e.
        decode_units_single c (encode_units cs) (ground (arith, h, e)) (ground (arith, h, e))
        ∙ rw rest)
      (λ e.
        decode_units_pair _ _ (encode_units cs) (ground (arith, h, e)) (ground (arith, h, e))
        ∙ rw rest (ap (λ d. ok (d ∷ cs)) (ground (arith, h, e))))

utf16-unit_bytes :
    (big : Bool) (cs : List ℕ)
    → all is_scalar cs ≡ true
    → utf16 (unit_bytes big (encode_units cs)) big ≡ ok (encode_chars cs)
unfolding utf16
utf16-unit_bytes big cs h =
    let even : (length (unit_bytes big (encode_units cs)) % 2 == 0) ≡ true =
      ground (arith, length-unit_bytes big (encode_units cs)) in
    rw (even, units-unit_bytes, decode_units-encode_units cs h)

-- The byte order mark.
abbrev pub mark : Bool → Bytes
mark true = 0xFE ∷ 0xFF ∷ []
mark false = 0xFF ∷ 0xFE ∷ []

abbrev pub note_of : Bool → Note
note_of true = utf16_be
note_of false = utf16_le

-- Any text saved as UTF-16 with a byte order mark, of either byte order, is decoded to the UTF-8
-- form of the same characters, with the note that says so, and not as a guess.
pub decode-utf16 :
    (big : Bool) (cs : List ℕ)
    → all is_scalar cs ≡ true
    → decode (mark big ++ unit_bytes big (encode_units cs))
      ≡ ok (record { text = encode_chars cs; encoding_note = some (note_of big); lossy = false })
unfolding decode
decode-utf16 true cs h = ap (sourced utf16_be) (utf16-unit_bytes true cs h)
decode-utf16 false cs h = ap (sourced utf16_le) (utf16-unit_bytes false cs h)
