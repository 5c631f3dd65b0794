-- ===== src/Base/Text.antt =====
-- The functions of Rust's `str` that the sources use on texts, over the bytes of valid UTF-8.
pub mod Laws
use Prim.Native.Nat.{ℕ, zero, suc, ◌+◌, ◌/◌, ◌%◌}
use mathlib.Core.Bool.{Bool, true, false, ◌&&◌, ◌||◌}
use mathlib.Core.Option.{Option, none, some}
use mathlib.Core.List.{List, [], ◌∷◌, ◌++◌, reverse}
use dbopt.Base.Tests.{◌==◌, ltb, if◌then◌else◌}
use dbopt.Base.Bytes.{Bytes, within, starts_with, eq_bytes}

-- White_Space of one byte, and of three: U+1680, U+2000 to U+200A, U+2028, U+2029, U+202F,
-- U+205F, U+3000. Those of two bytes are U+0085 and U+00A0.
abbrev pub is_white1 : ℕ → Bool
is_white1 a = within 9 13 a || a == 32

abbrev pub is_white2 : ℕ → ℕ → Bool
is_white2 a b = a == 194 && (b == 133 || b == 160)

abbrev pub is_white3 : ℕ → ℕ → ℕ → Bool
is_white3 a b c =
    (a == 225 && b == 154 && c == 128)
    || (a == 226 && b == 128 && (within 128 138 c || c == 168 || c == 169 || c == 175))
    || (a == 226 && b == 129 && c == 159)
    || (a == 227 && b == 128 && c == 128)

-- How many bytes the white character at the head takes; 0 if there is none.
unfoldable pub white_size : Bytes → ℕ
white_size [] = 0
white_size (a ∷ []) = if is_white1 a then 1 else 0
white_size (a ∷ b ∷ []) = if is_white1 a then 1 else if is_white2 a b then 2 else 0
white_size (a ∷ b ∷ c ∷ s) =
    if is_white1 a then 1 else if is_white2 a b then 2 else if is_white3 a b c then 3 else 0

-- The same at the end of a text that is given backwards.
unfoldable pub white_size_back : Bytes → ℕ
white_size_back [] = 0
white_size_back (a ∷ []) = if is_white1 a then 1 else 0
white_size_back (b ∷ a ∷ []) = if is_white1 b then 1 else if is_white2 a b then 2 else 0
white_size_back (c ∷ b ∷ a ∷ s) =
    if is_white1 c then 1 else if is_white2 b c then 2 else if is_white3 a b c then 3 else 0

-- Drop characters off the head while `size` finds one: `skip` bytes of the last one are left to
-- drop.
unfoldable pub trim_by : (Bytes → ℕ) → ℕ → Bytes → Bytes
trim_by size skip [] = []
trim_by size (suc skip) (b ∷ s) = trim_by size skip s
trim_by size zero (b ∷ s) = elim (size (b ∷ s)) [ zero ↦ b ∷ s | suc n ↦ trim_by size n s ]

-- str::trim
unfoldable pub trim : Bytes → Bytes
unfolding white_size white_size_back trim_by
trim s = reverse (trim_by white_size_back 0 (reverse (trim_by white_size 0 s)))

abbrev pub is_empty {ℓ} : {A : Type ℓ} → List A → Bool
is_empty [] = true
is_empty (b ∷ s) = false

-- str::split on a test of ASCII characters. `piece` is the current piece, backwards.
unfoldable pub split_from : (ℕ → Bool) → Bytes → Bytes → List Bytes
split_from p piece [] = reverse piece ∷ []
split_from p piece (b ∷ s) =
    let rest = split_from p (if p b then [] else b ∷ piece) s in
    if p b then reverse piece ∷ rest else rest

-- A line without the `\r` before its line feed; `piece` is the line, backwards.
abbrev end_line : Bytes → Bytes
end_line [] = []
end_line (b ∷ piece) = if b == b'\r' then reverse piece else reverse (b ∷ piece)

-- str::lines
unfoldable pub lines_from : Bytes → Bytes → List Bytes
lines_from [] [] = []
lines_from (c ∷ piece) [] = reverse (c ∷ piece) ∷ []
lines_from piece (b ∷ s) =
    let rest = lines_from (if b == b'\n' then [] else b ∷ piece) s in
    if b == b'\n' then end_line piece ∷ rest else rest

unfoldable pub lines : Bytes → List Bytes
unfolding lines_from
lines = lines_from []

-- str::find of a text that is not empty: the offset of its first occurrence.
unfoldable pub find : Bytes → Bytes → Option ℕ
unfolding starts_with
find pat [] = none
find pat (b ∷ s) =
    let later : Option ℕ = elim (find pat s) [ none ↦ none | some n ↦ some (suc n) ] in
    if starts_with pat (b ∷ s) then some 0 else later

-- str::contains of a text that is not empty
abbrev pub contains : Bytes → Bytes → Bool
contains pat s = elim (find pat s) [ none ↦ false | some n ↦ true ]

-- str::strip_suffix
unfoldable pub strip_suffix : Bytes → Bytes → Option Bytes
unfolding eq_bytes
strip_suffix suffix [] = if is_empty suffix then some [] else none
strip_suffix suffix (b ∷ s) =
    let rest : Option Bytes = elim (strip_suffix suffix s) [
      | none ↦ none
      | some p ↦ some (b ∷ p)
    ] in
    if eq_bytes (b ∷ s) suffix then some [] else rest

-- str::split(pat).next(): what stands before the first occurrence.
unfoldable pub before : Bytes → Bytes → Bytes
unfolding starts_with
before pat [] = []
before pat (b ∷ s) = let rest = b ∷ before pat s in if starts_with pat (b ∷ s) then [] else rest

-- str::contains of an ASCII character
unfoldable pub contains_byte : ℕ → Bytes → Bool
contains_byte c [] = false
contains_byte c (b ∷ s) = b == c || contains_byte c s

-- str::matches(c).count()
unfoldable pub count_byte_of : ℕ → Bytes → ℕ
count_byte_of c [] = 0
count_byte_of c (b ∷ s) = let n = count_byte_of c s in if b == c then suc n else n

-- The decimal digits of a number, on as many rounds as the number.
unfoldable pub decimal_from : ℕ → ℕ → Bytes
decimal_from zero n = []
decimal_from (suc left) n =
    let front = decimal_from left (n / 10) in
    if ltb n 10 then (n + 48) ∷ [] else front ++ (n % 10 + 48) ∷ []

-- `format!("{n}")`
unfoldable pub decimal : ℕ → Bytes
unfolding decimal_from
decimal n = decimal_from (suc n) n
