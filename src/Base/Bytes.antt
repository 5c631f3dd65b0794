-- ===== src/Base/Bytes.antt =====
-- Texts as lists of bytes, with the byte tests of Rust's `u8` and the text functions of `str` that
-- the sources use. A `&str` is the list of the bytes of its UTF-8 form.
pub mod Laws
use Prim.Native.Nat.{ℕ, ◌+◌}
use Prim.Native.Char.{code}
use Prim.Native.String.{String}
use mathlib.Core.Bool.{Bool, true, false, ◌&&◌, ◌||◌}
use mathlib.Core.Option.{Option, none, some}
use mathlib.Core.List.{List, [], ◌∷◌, map, reverse}
use dbopt.Base.Tests.{◌==◌, leb, if◌then◌else◌}

abbrev pub Bytes : Type 0
Bytes = List ℕ

-- The bytes of an ASCII literal.
abbrev pub codes : String → Bytes
codes String.[] = []
codes (String.◌∷◌ c s) = code c ∷ codes s

abbrev pub within : ℕ → ℕ → ℕ → Bool
within lo hi b = leb lo b && leb b hi

-- u8::is_ascii_alphabetic, is_ascii_digit, is_ascii_alphanumeric
unfoldable pub is_alpha : ℕ → Bool
is_alpha b = within b'a' b'z' b || within b'A' b'Z' b

unfoldable pub is_digit : ℕ → Bool
is_digit b = within b'0' b'9' b

unfoldable pub is_alnum : ℕ → Bool
unfolding is_alpha is_digit
is_alnum b = is_alpha b || is_digit b

-- u8::to_ascii_lowercase
unfoldable pub to_lower : ℕ → ℕ
to_lower b = if within b'A' b'Z' b then b + 32 else b

-- str::to_ascii_lowercase
unfoldable pub lowercase : Bytes → Bytes
unfolding to_lower
lowercase = map to_lower

-- str equality
unfoldable pub eq_bytes : Bytes → Bytes → Bool
eq_bytes [] [] = true
eq_bytes (a ∷ xs) (b ∷ ys) = a == b && eq_bytes xs ys
eq_bytes _ _ = false

-- str::eq_ignore_ascii_case
unfoldable pub eq_ignore_case : Bytes → Bytes → Bool
unfolding to_lower
eq_ignore_case [] [] = true
eq_ignore_case (a ∷ xs) (b ∷ ys) = to_lower a == to_lower b && eq_ignore_case xs ys
eq_ignore_case _ _ = false

-- The rest behind a prefix: str::strip_prefix.
unfoldable pub strip_prefix : Bytes → Bytes → Option Bytes
strip_prefix [] s = some s
strip_prefix (p ∷ ps) [] = none
strip_prefix (p ∷ ps) (c ∷ s) = let rest = strip_prefix ps s in if p == c then rest else none

-- str::starts_with
unfoldable pub starts_with : Bytes → Bytes → Bool
starts_with [] s = true
starts_with (p ∷ ps) [] = false
starts_with (p ∷ ps) (c ∷ s) = p == c && starts_with ps s

abbrev pub drop_while : (ℕ → Bool) → Bytes → Bytes
drop_while p [] = []
drop_while p (b ∷ bs) = let rest = drop_while p bs in if p b then rest else b ∷ bs

-- str::trim_matches with a test on ASCII characters
unfoldable pub trim_matches : (ℕ → Bool) → Bytes → Bytes
trim_matches p s = reverse (drop_while p (reverse (drop_while p s)))
