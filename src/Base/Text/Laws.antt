-- ===== src/Base/Text/Laws.antt =====
-- Laws of the text functions.

use mathlib.Core.Path.{◌≡◌, refl, ap}
use mathlib.Core.Bool.{false}
use mathlib.Core.Option.{Option, none, some}
use mathlib.Core.List.{[], ◌∷◌, ◌++◌}
use native.Mathlib.Omega.{arith}
use mathlib.Core.Logic.{◌≢◌}
use dbopt.Base.Lists.{length, length-append}
use dbopt.Base.Bytes.{Bytes, codes, eq_bytes}
use dbopt.Base.Bytes.Laws.{eq_bytes_iff}
use dbopt.Base.Text.{strip_suffix, contains_byte}

pub strip_suffix_sound :
    (s : Bytes) {p : Bytes} → strip_suffix (codes ".*") s ≡ some p → s ≡ p ++ codes ".*"
unfolding strip_suffix
strip_suffix_sound [] h = cc
strip_suffix_sound (b ∷ s) {p} h =
    sound (strip_suffix (codes ".*") s) refl (λ q e. strip_suffix_sound s {p = q} e)
  where
    sound :
        (o : Option Bytes)
        → strip_suffix (codes ".*") s ≡ o
        → ((q : Bytes) → strip_suffix (codes ".*") s ≡ some q → s ≡ q ++ codes ".*")
        → b ∷ s ≡ p ++ codes ".*"
    sound none e ih = ground (arith, h, e, eq_bytes_iff s (codes "*"))
    sound (some q) e ih = ground (arith, h, e, eq_bytes_iff s (codes "*"), ih q e)

append_ne_star : (p : Bytes) → (p ++ codes ".*") ≢ codes "*"
append_ne_star p e = omega (arith, length-append p (codes ".*"), ap length e)

pub strip_suffix-append : (p : Bytes) → strip_suffix (codes ".*") (p ++ codes ".*") ≡ some p
unfolding strip_suffix eq_bytes
strip_suffix-append [] = refl
strip_suffix-append (b ∷ p) =
    ground
      (arith, strip_suffix-append p, eq_bytes_iff (p ++ codes ".*") (codes "*"), append_ne_star p)

pub strip_suffix_no_dot :
    (s : Bytes) → contains_byte b'.' s ≡ false → strip_suffix (codes ".*") s ≡ none
unfolding strip_suffix contains_byte eq_bytes
strip_suffix_no_dot [] h = refl
strip_suffix_no_dot (b ∷ s) h = ground (arith, strip_suffix_no_dot s)
