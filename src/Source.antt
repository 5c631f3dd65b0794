-- ===== src/Source.antt =====
-- crates/analyzer-cli/src/source.rs: reading a script off disk. An error's text is a value of
-- `DecodeError`, and an encoding note a value of `Note`. The functions that walk the characters of a
-- text only test for ASCII characters; they walk its bytes here.
pub mod RoundTrip
pub mod Utf8
mod Tests
use dbopt.Base.{
  ℕ, zero, suc, ◌+◌, ◌-◌, ◌*◌, ◌/◌, ◌%◌, Bool, true, false, not, ◌&&◌, ◌||◌, Option, none, some,
  List, [], ◌∷◌, ◌++◌, ltb, leb, ◌==◌, if◌then◌else◌, length, take, drop, any, map,
}
use dbopt.Base.Bytes.{
  Bytes, codes, within, is_alpha, lowercase, eq_bytes, starts_with, strip_prefix,
}
use dbopt.Base.Text.{trim, is_empty, find, contains}
use dbopt.Base.Utf8.{is_utf8, encode_chars, take_chars}

pub data Note : Type 0 where
  utf16_le utf16_be utf16_le_no_bom utf16_be_no_bom windows_1252_guess : Note

pub data DecodeError : Type 0 where
  odd_length lone_surrogate not_utf8 : DecodeError

pub data Result {ℓ} (A : Type ℓ) : Type ℓ where
  ok : A → Result A
  err : DecodeError → Result A

pub record Source : Type 0 where
  pub text : Bytes
  pub encoding_note : Option Note
  pub lossy : Bool

-- The table HIGH of the characters of the bytes from 0x80 to 0x9F.
abbrev high_table : List ℕ
high_table =
    0x20AC ∷ 0x81 ∷ 0x201A ∷ 0x0192 ∷ 0x201E ∷ 0x2026 ∷ 0x2020 ∷ 0x2021 ∷ 0x02C6 ∷ 0x2030 ∷ 0x0160
    ∷ 0x2039 ∷ 0x0152 ∷ 0x8D ∷ 0x017D ∷ 0x8F ∷ 0x90 ∷ 0x2018 ∷ 0x2019 ∷ 0x201C ∷ 0x201D ∷ 0x2022
    ∷ 0x2013 ∷ 0x2014 ∷ 0x02DC ∷ 0x2122 ∷ 0x0161 ∷ 0x203A ∷ 0x0153 ∷ 0x9D ∷ 0x017E ∷ 0x0178 ∷ []

abbrev char_at : ℕ → List ℕ → ℕ
char_at i [] = 0
char_at zero (c ∷ cs) = c
char_at (suc i) (c ∷ cs) = char_at i cs

unfoldable pub windows_1252_char : ℕ → ℕ
windows_1252_char b = if within 0x80 0x9F b then char_at (b - 0x80) high_table else b

-- windows_1252
unfoldable pub windows_1252 : Bytes → Bytes
unfolding windows_1252_char encode_chars
windows_1252 bytes = encode_chars (map windows_1252_char bytes)

-- chunks_exact(2) with from_be_bytes or from_le_bytes
unfoldable pub units : Bool → Bytes → List ℕ
units big [] = []
units big (a ∷ []) = []
units big (a ∷ b ∷ bs) = (if big then a * 256 + b else a + b * 256) ∷ units big bs

abbrev cons_result : ℕ → Result (List ℕ) → Result (List ℕ)
cons_result c (ok cs) = ok (c ∷ cs)
cons_result c (err e) = err e

abbrev is_high : ℕ → Bool
is_high u = within 0xD800 0xDBFF u

abbrev is_low : ℕ → Bool
is_low u = within 0xDC00 0xDFFF u

-- The characters of String::from_utf16.
unfoldable pub decode_units : List ℕ → Result (List ℕ)
decode_units [] = ok []
decode_units (u ∷ []) = if is_high u || is_low u then err lone_surrogate else ok (u ∷ [])
decode_units (u ∷ v ∷ us) =
    let pair = cons_result (0x10000 + (u - 0xD800) * 0x400 + (v - 0xDC00)) (decode_units us) in
    let single = cons_result u (decode_units (v ∷ us)) in
    if is_high u
    then (if is_low v then pair else err lone_surrogate)
    else if is_low u
    then err lone_surrogate
    else single

abbrev encoded : Result (List ℕ) → Result Bytes
encoded (ok cs) = ok (encode_chars cs)
encoded (err e) = err e

-- utf16
unfoldable pub utf16 : Bytes → Bool → Result Bytes
unfolding units decode_units encode_chars
utf16 bytes big =
    if not (length bytes % 2 == 0) then err odd_length else encoded (decode_units (units big bytes))

-- NULs at the even and at the odd places.
pub record Nuls : Type 0 where
  pub even : ℕ
  pub odd : ℕ

abbrev add_nul : Bool → Nuls → Nuls
add_nul true n = record n { even = n.even + 1 }
add_nul false n = record n { odd = n.odd + 1 }

-- The counting loop; the flag is `i % 2 == 0`.
unfoldable pub count_nuls : Bool → Nuls → Bytes → Nuls
count_nuls even n [] = n
count_nuls even n (b ∷ bs) = count_nuls (not even) (if b == 0 then add_nul even n else n) bs

unfoldable pub sniff_bomless_utf16 : Bytes → Option Bool
unfolding count_nuls
sniff_bomless_utf16 bytes =
    if ltb (length bytes) 4 || not (length bytes % 2 == 0)
    then none
    else let sample = take 1024 bytes in
      let n = count_nuls true (record { even = 0; odd = 0 }) sample in
      let pairs = length sample / 2 in
      if leb (pairs * 8) (n.odd * 10) && n.even == 0
      then some false
      else if leb (pairs * 8) (n.even * 10) && n.odd == 0
      then some true
      else none

abbrev sourced : Note → Result Bytes → Result Source
sourced note (ok text) = ok (record { text = text; encoding_note = some note; lossy = false })
sourced note (err e) = err e

abbrev pub plain : Bytes → Source
plain text = record { text = text; encoding_note = none; lossy = false }

-- The last `match` of `decode`.
unfoldable pub decode_utf8_or_guess : Bytes → Result Source
unfolding is_utf8 windows_1252
decode_utf8_or_guess bytes =
    if is_utf8 bytes
    then ok (plain bytes)
    else ok (record {
      text = windows_1252 bytes;
      encoding_note = some windows_1252_guess;
      lossy = true;
    })

unfoldable pub decode : Bytes → Result Source
unfolding utf16 sniff_bomless_utf16 decode_utf8_or_guess is_utf8 starts_with strip_prefix
decode bytes =
    if starts_with (0xFF ∷ 0xFE ∷ []) bytes
    then sourced utf16_le (utf16 (drop 2 bytes) false)
    else if starts_with (0xFE ∷ 0xFF ∷ []) bytes
    then sourced utf16_be (utf16 (drop 2 bytes) true)
    else elim (strip_prefix (0xEF ∷ 0xBB ∷ 0xBF ∷ []) bytes) [
      | some rest ↦ if is_utf8 rest then ok (plain rest) else err not_utf8
      | none ↦ elim (sniff_bomless_utf16 bytes) [
        | some big ↦ sourced (if big then utf16_be_no_bom else utf16_le_no_bom) (utf16 bytes big)
        | none ↦ decode_utf8_or_guess bytes
      ]
    ]

unfoldable pub looks_like_plan_xml : Bytes → Bool
unfolding take_chars lowercase find
looks_like_plan_xml text =
    let head = lowercase (take_chars 4096 text) in
    contains (codes "<showplanxml") head || contains (codes ":showplanxml") head

-- The loop of `strip_comments`: in a block comment at a depth, in a line comment, or in neither.
pub data Mode : Type 0 where
  code_mode : Mode
  line_mode : Mode
  block_mode : ℕ → Mode

unfoldable pub strip_comments_from : Mode → Bytes → Bytes
strip_comments_from m [] = []
strip_comments_from (block_mode d) (a ∷ []) = []
strip_comments_from line_mode (a ∷ []) = if a == b'\n' then a ∷ [] else []
strip_comments_from code_mode (a ∷ []) = a ∷ []
strip_comments_from (block_mode d) (a ∷ b ∷ s) =
    let closed = strip_comments_from (if d - 1 == 0 then code_mode else block_mode (d - 1)) s in
    let opened = strip_comments_from (block_mode (d + 1)) s in
    let passed = strip_comments_from (block_mode d) (b ∷ s) in
    if a == b'*' && b == b'/' then closed else if a == b'/' && b == b'*' then opened else passed
strip_comments_from line_mode (a ∷ b ∷ s) =
    let ended = a ∷ strip_comments_from code_mode (b ∷ s) in
    let passed = strip_comments_from line_mode (b ∷ s) in if a == b'\n' then ended else passed
strip_comments_from code_mode (a ∷ b ∷ s) =
    let opened = strip_comments_from (block_mode 1) s in
    let line = strip_comments_from line_mode (b ∷ s) in
    let kept = a ∷ strip_comments_from code_mode (b ∷ s) in
    if a == b'/' && b == b'*' then opened else if a == b'-' && b == b'-' then line else kept

unfoldable pub strip_comments : Bytes → Bytes
unfolding strip_comments_from
strip_comments = strip_comments_from code_mode

-- The words of KEYWORDS.
abbrev pub sql_keywords : List Bytes
sql_keywords = map codes (
    "SELECT" ∷ "INSERT" ∷ "UPDATE" ∷ "DELETE" ∷ "MERGE" ∷ "CREATE" ∷ "ALTER" ∷ "DROP" ∷ "TRUNCATE"
    ∷ "WITH" ∷ "EXEC" ∷ "EXECUTE" ∷ "DECLARE" ∷ "SET" ∷ "GRANT" ∷ "REVOKE" ∷ "DENY" ∷ "BEGIN"
    ∷ "USE" ∷ "BACKUP" ∷ "RESTORE" ∷ "PRINT" ∷ "RAISERROR" ∷ "THROW" ∷ "WAITFOR" ∷ "GO" ∷ "IF"
    ∷ "WHILE" ∷ "VALUES" ∷ "FROM" ∷ "TABLE" ∷ "VIEW" ∷ "PROCEDURE" ∷ "FUNCTION" ∷ "INDEX"
    ∷ "TRIGGER" ∷ [])

-- char::to_ascii_uppercase
abbrev to_upper : ℕ → ℕ
to_upper b = if within b'a' b'z' b then b - 32 else b

-- The loop over the characters and one blank behind them; `word` is the current word.
unfoldable pub find_keyword : Bytes → Bytes → Bool
unfolding eq_bytes is_alpha
find_keyword word [] = not (is_empty word) && any (eq_bytes word) sql_keywords
find_keyword word (ch ∷ s) =
    let letter = is_alpha ch || ch == b'_' in
    let later = find_keyword (if letter then word ++ to_upper ch ∷ [] else []) s in
    if letter
    then later
    else if not (is_empty word) && any (eq_bytes word) sql_keywords
    then true
    else later

unfoldable pub looks_like_sql : Bytes → Bool
unfolding find_keyword strip_comments
looks_like_sql text = find_keyword [] (strip_comments text)

unfoldable pub is_effectively_empty : Bytes → Bool
unfolding strip_comments trim
is_effectively_empty text = is_empty (trim (strip_comments text))
