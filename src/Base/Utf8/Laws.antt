-- ===== src/Base/Utf8/Laws.antt =====
-- Every scalar value encodes to a well-formed sequence.
use Prim.Native.Nat.{ℕ, suc, ◌+◌, ◌/◌, ◌%◌, ◌≤◌, ◌<◌}
use mathlib.Core.Path.{◌≡◌, refl, ◌∙◌}
use mathlib.Core.Logic.{◌⊎◌, inl, inr}
use mathlib.Core.Bool.{true}
use mathlib.Core.List.{List, [], ◌∷◌, ◌++◌}
use native.Mathlib.Omega.{arith}
use dbopt.Base.Tests.{ltb, ◌==◌, if◌then◌else◌, if_cases, Bool-cases}
use dbopt.Base.Lists.{all}
use dbopt.Base.Bytes.{Bytes, within}
use dbopt.Base.Utf8.{
  ready, wants, lead_byte, next_byte, accepts, is_utf8, is_scalar, encode_char, encode_chars,
}

accepts-cont :
    (n lo hi b : ℕ) (bs : Bytes)
    → lo ≤ b
    → b ≤ hi
    → (accepts (wants 0 lo hi) (b ∷ bs) ≡ accepts ready bs)
      × (accepts (wants (suc n) lo hi) (b ∷ bs) ≡ accepts (wants n 128 191) bs)
unfolding accepts next_byte
accepts-cont n lo hi b bs h k = let e : within lo hi b ≡ true = ground arith in (rw e, rw e)

accepts-lead : (b : ℕ) (bs : Bytes) → accepts ready (b ∷ bs) ≡ accepts (lead_byte b) bs
unfolding accepts next_byte
accepts-lead b bs = refl

-- The lead bytes of sequences of two, three and four bytes, with the range of the byte behind.
lead_byte2 : (b : ℕ) → 194 ≤ b → b ≤ 223 → lead_byte b ≡ wants 0 128 191
unfolding lead_byte
lead_byte2 b h k = ground arith

lead_byte3 :
    (b : ℕ)
    → 224 ≤ b
    → b ≤ 239
    → lead_byte b ≡ (
        if b == 224 then wants 1 160 191 else if b == 237 then wants 1 128 159 else wants 1 128 191)
unfolding lead_byte
lead_byte3 b h k = ground arith

lead_byte4 :
    (b : ℕ)
    → 240 ≤ b
    → b ≤ 244
    → lead_byte b ≡ (
        if b == 240 then wants 2 144 191 else if b == 244 then wants 2 128 143 else wants 2 128 191)
unfolding lead_byte
lead_byte4 b h k = ground arith

accepts2 :
    (a b : ℕ) (rest : Bytes)
    → lead_byte a ≡ wants 0 128 191
    → 128 ≤ b
    → b ≤ 191
    → accepts ready (a ∷ b ∷ rest) ≡ accepts ready rest
accepts2 a b rest e h k = accepts-lead a (b ∷ rest) ∙ rw e ((accepts-cont 0 128 191 b rest h k).0)

accepts3 :
    (a b c lo hi : ℕ) (rest : Bytes)
    → lead_byte a ≡ wants 1 lo hi
    → lo ≤ b
    → b ≤ hi
    → 128 ≤ c
    → c ≤ 191
    → accepts ready (a ∷ b ∷ c ∷ rest) ≡ accepts ready rest
accepts3 a b c lo hi rest e h k h' k' =
    accepts-lead a (b ∷ c ∷ rest)
    ∙ rw e ((accepts-cont 0 lo hi b (c ∷ rest) h k).1 ∙ (accepts-cont 0 128 191 c rest h' k').0)

accepts4 :
    (a b c d lo hi : ℕ) (rest : Bytes)
    → lead_byte a ≡ wants 2 lo hi
    → lo ≤ b
    → b ≤ hi
    → (128 ≤ c) × (c ≤ 191)
    → (128 ≤ d) × (d ≤ 191)
    → accepts ready (a ∷ b ∷ c ∷ d ∷ rest) ≡ accepts ready rest
accepts4 a b c d lo hi rest e h k (h', k') (h'', k'') =
    accepts-lead a (b ∷ c ∷ d ∷ rest)
    ∙ rw e (
        (accepts-cont 1 lo hi b (c ∷ d ∷ rest) h k).1
        ∙ (accepts-cont 0 128 191 c (d ∷ rest) h' k').1
        ∙ (accepts-cont 0 128 191 d rest h'' k'').0)

accepts-ascii : (c : ℕ) (rest : Bytes) → c < 128 → accepts ready (c ∷ rest) ≡ accepts ready rest
unfolding lead_byte
accepts-ascii c rest h = let e : ltb c 128 ≡ true = ground arith in accepts-lead c rest ∙ rw e

accepts-three :
    (c : ℕ) (rest : Bytes)
    → 0x800 ≤ c
    → c < 0x10000
    → (c < 0xD800) ⊎ (0xE000 ≤ c)
    → accepts ready ((224 + c / 4096) ∷ (128 + c / 64 % 64) ∷ (128 + c % 64) ∷ rest)
      ≡ accepts ready rest
accepts-three c rest h k s =
    let a = 224 + c / 4096 in
    let lead = lead_byte3 a (omega arith) (omega arith) in
    elim (Bool-cases (a == 224)) [
      | inl e ↦
          accepts3 a _ _ 160 191 rest (lead ∙ rw e) (ground arith) (omega arith) (omega arith)
            (omega arith)
      | inr e ↦ elim (Bool-cases (a == 237)) [
        | inl f ↦
            accepts3 a _ _ 128 159 rest (lead ∙ rw (e, f)) (omega arith) (ground arith)
              (omega arith) (omega arith)
        | inr f ↦
            accepts3 a _ _ 128 191 rest (lead ∙ rw (e, f)) (omega arith) (omega arith) (omega arith)
              (omega arith)
      ]
    ]

accepts-four :
    (c : ℕ) (rest : Bytes)
    → 0x10000 ≤ c
    → c < 0x110000
    → accepts ready
        ((240 + c / 262144) ∷ (128 + c / 4096 % 64) ∷ (128 + c / 64 % 64) ∷ (128 + c % 64) ∷ rest)
      ≡ accepts ready rest
accepts-four c rest h k =
    let a = 240 + c / 262144 in
    let lead = lead_byte4 a (omega arith) (omega arith) in
    elim (Bool-cases (a == 240)) [
      | inl e ↦
          accepts4 a _ _ _ 144 191 rest (lead ∙ rw e) (ground arith) (omega arith) (omega arith)
            (omega arith)
      | inr e ↦ elim (Bool-cases (a == 244)) [
        | inl f ↦
            accepts4 a _ _ _ 128 143 rest (lead ∙ rw (e, f)) (omega arith) (ground arith)
              (omega arith) (omega arith)
        | inr f ↦
            accepts4 a _ _ _ 128 191 rest (lead ∙ rw (e, f)) (omega arith) (omega arith)
              (omega arith) (omega arith)
      ]
    ]

is_scalar_bounds : (c : ℕ) → is_scalar c ≡ true → (c < 0x110000) × ((c < 0xD800) ⊎ (0xE000 ≤ c))
unfolding is_scalar
is_scalar_bounds c h = ground arith

accepts-encode_char :
    (c : ℕ) (rest : Bytes)
    → is_scalar c ≡ true
    → accepts ready (encode_char c ++ rest) ≡ accepts ready rest
unfolding encode_char
accepts-encode_char c rest h =
    let (top, gap) = is_scalar_bounds c h in
    let P : Bytes → Type 0 = λ w. accepts ready (w ++ rest) ≡ accepts ready rest in
    if_cases P (ltb c 0x80) _ _ (λ e. accepts-ascii c rest (ground arith))
      λ e1.
        if_cases P (ltb c 0x800) _ _
          (λ e.
            accepts2 _ _ rest (lead_byte2 _ (ground arith) (ground arith)) (omega arith)
              (omega arith))
          λ e2.
            if_cases P (ltb c 0x10000) _ _
              (λ e. accepts-three c rest (ground arith) (ground arith) gap)
              (λ e. accepts-four c rest (ground arith) top)

-- The UTF-8 form of scalar values is well formed.
pub is_utf8-encode_chars :
    (cs : List ℕ) → all is_scalar cs ≡ true → is_utf8 (encode_chars cs) ≡ true
unfolding is_utf8 encode_chars
is_utf8-encode_chars [] h = refl
is_utf8-encode_chars (c ∷ cs) h =
    accepts-encode_char c (encode_chars cs) (ground (arith, h))
    ∙ is_utf8-encode_chars cs (ground (arith, h))
