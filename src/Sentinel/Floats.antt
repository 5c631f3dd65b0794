-- ===== src/Sentinel/Floats.antt =====
-- The operations of `f64` that the sources use. They are parameters: no law of them is assumed.
use dbopt.Base.{ℕ, Bool}
use dbopt.Base.Bytes.{Bytes}

-- An `i64`.
pub data ℤ : Type 0 where
  pos : ℕ → ℤ
  negsuc : ℕ → ℤ

pub record Floats (F : Type 0) : Type 0 where
  -- A literal: the digits, and how many of them stand behind the point.
  pub literal : ℕ → ℕ → F
  -- `as f64`
  pub of_int : ℤ → F
  pub less : F → F → Bool
  pub at_most : F → F → Bool
  pub minus : F → F → F
  pub times : F → F → F
  pub divided : F → F → F
  pub greater : F → F → F
  pub round : F → F
  pub magnitude : F → F
  -- `format!("{}", n as i64)` and `format!("{n:.1}")`
  pub show_int : F → Bytes
  pub show_tenth : F → Bytes
