-- ===== src/Base/Utf8.antt =====
-- std::str::from_utf8, as the sources use it: the well-formed byte sequences of Unicode's Table 3-7.
pub mod Laws
use Prim.Native.String.{String}
use dbopt.Base.Bytes.{Bytes, codes, within}
use dbopt.Base.Tests.{◌==◌, ltb, leb, if◌then◌else◌}
use Prim.Native.Nat.{ℕ, zero, suc, ◌+◌, ◌-◌, ◌/◌, ◌%◌}
use mathlib.Core.Bool.{Bool, true, false, ◌||◌, ◌&&◌}
use mathlib.Core.List.{List, [], ◌∷◌, ◌++◌}

-- A continuation byte.
abbrev pub is_cont : ℕ → Bool
is_cont b = within 128 191 b

-- What a sequence still wants: nothing, or so many bytes, the next of them in a range.
pub data Pending : Type 0 where
  ready : Pending
  wants : ℕ → ℕ → ℕ → Pending
  refused : Pending

lead_byte : ℕ → Pending
lead_byte b =
    if ltb b 128
    then ready
    else if within 194 223 b
    then wants 0 128 191
    else if b == 224
    then wants 1 160 191
    else if within 225 236 b || within 238 239 b
    then wants 1 128 191
    else if b == 237
    then wants 1 128 159
    else if b == 240
    then wants 2 144 191
    else if within 241 243 b
    then wants 2 128 191
    else if b == 244
    then wants 2 128 143
    else refused

next_byte : Pending → ℕ → Pending
unfolding lead_byte
next_byte ready b = lead_byte b
next_byte (wants zero lo hi) b = if within lo hi b then ready else refused
next_byte (wants (suc n) lo hi) b = if within lo hi b then wants n 128 191 else refused
next_byte refused b = refused

accepts : Pending → Bytes → Bool
unfolding next_byte
accepts ready [] = true
accepts (wants n lo hi) [] = false
accepts refused [] = false
accepts p (b ∷ bs) = accepts (next_byte p b) bs

-- Is this the UTF-8 form of some text?
unfoldable pub is_utf8 : Bytes → Bool
unfolding accepts
is_utf8 bs = accepts ready bs

-- from_utf8(bytes).unwrap_or("")
unfoldable pub from_utf8_or_empty : Bytes → Bytes
unfolding is_utf8
from_utf8_or_empty bs = if is_utf8 bs then bs else []

-- A Unicode scalar value: no surrogate, and below 0x110000.
unfoldable pub is_scalar : ℕ → Bool
is_scalar c = ltb c 0xD800 || (leb 0xE000 c && ltb c 0x110000)

-- The UTF-8 form of a scalar value.
unfoldable pub encode_char : ℕ → Bytes
encode_char c =
    if ltb c 0x80
    then c ∷ []
    else if ltb c 0x800
    then (192 + c / 64) ∷ (128 + c % 64) ∷ []
    else if ltb c 0x10000
    then (224 + c / 4096) ∷ (128 + c / 64 % 64) ∷ (128 + c % 64) ∷ []
    else (240 + c / 262144) ∷ (128 + c / 4096 % 64) ∷ (128 + c / 64 % 64) ∷ (128 + c % 64) ∷ []

-- The UTF-8 form of a text that is given by its scalar values.
unfoldable pub encode_chars : List ℕ → Bytes
unfolding encode_char
encode_chars [] = []
encode_chars (c ∷ cs) = encode_char c ++ encode_chars cs

-- The first `n` characters of a text: str::chars().take(n).
unfoldable pub take_chars : ℕ → Bytes → Bytes
take_chars n [] = []
take_chars n (b ∷ s) =
    let inside = b ∷ take_chars n s in
    let next = b ∷ take_chars (n - 1) s in if is_cont b then inside else if n == 0 then [] else next

-- The bytes of a literal of any characters.
abbrev pub utf8 : String → Bytes
utf8 s = encode_chars (codes s)
