-- ===== src/Source/Tests.antt =====
-- Decoding concrete files, and its theorems at them.
use dbopt.Base.{◌≡◌, refl, true, false, some, List, [], ◌∷◌, ◌++◌, ℕ}
use dbopt.Base.Bytes.{Bytes, codes, strip_prefix}
use dbopt.Base.Utf8.{is_scalar, encode_chars}
use dbopt.Source.{
  ok, err, odd_length, windows_1252_guess, utf16_be, utf16_le_no_bom, plain, decode,
  looks_like_plan_xml, looks_like_sql, is_effectively_empty,
}
use dbopt.Source.Utf8.{decode-utf8}
use dbopt.Source.RoundTrip.{mark, unit_bytes, encode_units, decode-utf16}

-- "é €" in Windows-1252.
abbrev ansi : Bytes
ansi = 0xE9 ∷ 0x20 ∷ 0x80 ∷ []

decode-ansi :
    decode ansi
    ≡ ok (record {
      text = 0xC3 ∷ 0xA9 ∷ 0x20 ∷ 0xE2 ∷ 0x82 ∷ 0xAC ∷ [];
      encoding_note = some windows_1252_guess;
      lossy = true;
    })
unfolding decode
decode-ansi = refl

decode_no_bom :
    decode (unit_bytes false (codes "GO;\n"))
    ≡ ok (record { text = codes "GO;\n"; encoding_note = some utf16_le_no_bom; lossy = false })
unfolding decode
decode_no_bom = refl

decode_odd : decode (0xFF ∷ 0xFE ∷ 0x41 ∷ []) ≡ err odd_length
unfolding decode
decode_odd = refl

shapes :
    (looks_like_sql (codes "/* SELECT */ x -- go\n") ≡ false)
    × (looks_like_sql (codes "/* a /* b */ c */ exec p") ≡ true)
    × (is_effectively_empty (codes " -- note\n/* SELECT 1 */ ") ≡ true)
    × (looks_like_plan_xml (codes "<?xml?><ShowPlanXML>") ≡ true)
unfolding looks_like_sql is_effectively_empty looks_like_plan_xml
shapes = (refl, refl, refl, refl)

-- "é😀"
abbrev smile : List ℕ
smile = 0xE9 ∷ 0x1F600 ∷ []

decode-utf8_example :
    (decode (0xC3 ∷ 0xA9 ∷ 0x3B ∷ []) ≡ ok (plain (0xC3 ∷ 0xA9 ∷ 0x3B ∷ [])))
    × (decode (0xEF ∷ 0xBB ∷ 0xBF ∷ 0xC3 ∷ 0xA9 ∷ 0x3B ∷ []) ≡ ok (plain (0xC3 ∷ 0xA9 ∷ 0x3B ∷ [])))
unfolding is_scalar encode_chars strip_prefix
decode-utf8_example = decode-utf8 (0xE9 ∷ 0x3B ∷ []) refl refl refl

decode-utf16_example :
    decode (mark true ++ unit_bytes true (encode_units smile))
    ≡ ok (record { text = encode_chars smile; encoding_note = some utf16_be; lossy = false })
unfolding is_scalar
decode-utf16_example = decode-utf16 true smile refl
