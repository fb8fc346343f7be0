-- ===== src/EvaluatePrg/Vectors/Bits.antt =====
-- The arithmetic of the vector operations on one block.
use native.Mathlib.Nat.{div-add-mod, mod-eq_of_lt, one-le-pow, pow-suc, pow-le-pow_right}
use native.Mathlib.Decide.{dec_lt}
use distributed_point_functi.Base.{
  ℕ, ◌+◌, ◌-◌, ◌*◌, ◌/◌, ◌%◌, ◌^◌, ◌<◌, ◌≡◌, refl, ap, ap₂, ◌∙◌, not, ◌==◌, arith, bit_and, bit_or,
  bit_xor, bit_xor_comm, bit_xor-zero, op_div, op_mod, and-IsDigitwise, or-IsDigitwise,
  xor-IsDigitwise, ones-bit_and, zero-bit_and, bit_and_comm, bit_and-pow, bit_or_is_zero,
  bit_and_step, high64, low64, make_uint128, u64_mod, u128_mod, test_bit, eq→==, Bool, true, false,
  ◌⊎◌, inl, inr, suc,
}
use distributed_point_functi.Aes.{sigma}
use distributed_point_functi.EvaluatePrg.{clear_lowest_bit}

abbrev pub swap : ℕ → ℕ
swap x = make_uint128 (low64 x) (high64 x)

high_below : (x : ℕ) → x < u128_mod → high64 x < u64_mod
high_below x h = omega arith

high-swap : (x : ℕ) → x < u128_mod → high64 (swap x) ≡ low64 x
high-swap x h = omega arith

low-swap : (x : ℕ) → x < u128_mod → low64 (swap x) ≡ high64 x
low-swap x h = omega arith

high_of_halves : (a b : ℕ) → b < u64_mod → a ≡ high64 (make_uint128 a b)
high_of_halves a b h = omega arith

low_of_halves : (a b : ℕ) → b < u64_mod → b ≡ low64 (make_uint128 a b)
low_of_halves a b h = omega arith

not-not : (b : Bool) → not (not b) ≡ b
not-not true = refl
not-not false = refl

two_cases : (x : ℕ) → (x % 2 ≡ 0) ⊎ (x % 2 ≡ 1)
two_cases x = elim (dec_lt (x % 2) 1) [
  | yes small ↦ inl (omega arith)
  | no large ↦ inr (omega arith)
]

pow-lt : (k : ℕ) → k < 128 → 2 ^ k < u128_mod
pow-lt k h = omega (
  arith,
  pow-suc 2 k,
  pow-le-pow_right {n = 2} (omega arith) {i = suc k} {j = 128} (omega arith),
  one-le-pow k 2 (omega arith),
)

from_halves : (x y : ℕ) → high64 x ≡ high64 y → low64 x ≡ low64 y → x ≡ y
from_halves x y e f = omega arith

pub clears : (x : ℕ) → x < u128_mod → bit_and x (u128_mod - 2) ≡ clear_lowest_bit x
unfolding clear_lowest_bit
clears x h =
    bit_and_step x (u128_mod - 2)
    ∙ omega (arith, bit_and_comm (x / 2) (2 ^ 127 - 1), ones-bit_and 127 (x / 2))

abbrev sigma_mask : ℕ
sigma_mask = (u64_mod - 1) * u64_mod

pub sigma_lem : (x : ℕ) → x < u128_mod → bit_xor (swap x) (bit_and sigma_mask x) ≡ sigma x
unfolding sigma
sigma_lem x h =
    from_halves (bit_xor (swap x) (bit_and sigma_mask x))
      (make_uint128 (bit_xor (high64 x) (low64 x)) (high64 x)) upper lower
  where
    upper :
        high64 (bit_xor (swap x) (bit_and sigma_mask x))
        ≡ high64 (make_uint128 (bit_xor (high64 x) (low64 x)) (high64 x))
    upper =
        op_div xor-IsDigitwise 64 (swap x) (bit_and sigma_mask x)
        ∙ ap₂ bit_xor (high-swap x h) (
            op_div and-IsDigitwise 64 sigma_mask x
            ∙ ones-bit_and 64 (high64 x)
            ∙ mod-eq_of_lt (high_below x h))
        ∙ bit_xor_comm (low64 x) (high64 x)
        ∙ high_of_halves (bit_xor (high64 x) (low64 x)) (high64 x) (high_below x h)

    lower :
        low64 (bit_xor (swap x) (bit_and sigma_mask x))
        ≡ low64 (make_uint128 (bit_xor (high64 x) (low64 x)) (high64 x))
    lower =
        op_mod xor-IsDigitwise 64 (swap x) (bit_and sigma_mask x)
        ∙ ap₂ bit_xor (low-swap x h)
            (op_mod and-IsDigitwise 64 sigma_mask x ∙ zero-bit_and (low64 x))
        ∙ bit_xor-zero (high64 x)
        ∙ low_of_halves (bit_xor (high64 x) (low64 x)) (high64 x) (high_below x h)

-- The bit of a block at an index, in both halves.
abbrev pub spread : ℕ → ℕ → ℕ
spread x index = let y = bit_and x (2 ^ index % u128_mod) in bit_or y (swap y)

one_bit :
    (x index : ℕ)
    → index < 128
    → (bit_and x (2 ^ index % u128_mod) ≡ x / 2 ^ index % 2 * 2 ^ index)
      × (bit_and x (2 ^ index % u128_mod) < u128_mod)
one_bit x index h =
    let fits : 2 ^ index < u128_mod = pow-lt index h in
    let e : bit_and x (2 ^ index % u128_mod) ≡ x / 2 ^ index % 2 * 2 ^ index =
      ap (bit_and x) (mod-eq_of_lt fits) ∙ bit_and-pow index x in
    (
      e,
      elim (two_cases (x / 2 ^ index)) [
        | inl zero_bit ↦ omega (arith, e, ap (λ b. b * 2 ^ index) zero_bit)
        | inr one ↦ omega (arith, e, ap (λ b. b * 2 ^ index) one, fits)
      ],
    )

halves_zero : (y : ℕ) → (high64 y + low64 y == 0) ≡ (y == 0)
halves_zero y = ground (arith, div-add-mod y u64_mod)

one_bit_zero : (x index : ℕ) → (x / 2 ^ index % 2 * 2 ^ index == 0) ≡ not (test_bit x index)
unfolding test_bit
one_bit_zero x index = elim (two_cases (x / 2 ^ index)) [
  | inl e ↦ rw e (eq→== (0 * 2 ^ index) 0 (omega arith))
  | inr e ↦ rw e (ground (arith, one-le-pow index 2 (omega arith)))
]

pub spread-high :
    (x index : ℕ) → index < 128 → not (high64 (spread x index) == 0) ≡ test_bit x index
spread-high x index h =
    let (e, small) = one_bit x index h in
    let y = bit_and x (2 ^ index % u128_mod) in
    ap (λ n. not (n == 0))
      (op_div or-IsDigitwise 64 y (swap y) ∙ ap (bit_or (high64 y)) (high-swap y small))
    ∙ ap not (
        bit_or_is_zero (high64 y) (low64 y)
        ∙ halves_zero y
        ∙ ap (λ n. n == 0) e
        ∙ one_bit_zero x index)
    ∙ not-not (test_bit x index)

pub spread-low : (x index : ℕ) → index < 128 → not (low64 (spread x index) == 0) ≡ test_bit x index
spread-low x index h =
    let (e, small) = one_bit x index h in
    let y = bit_and x (2 ^ index % u128_mod) in
    ap (λ n. not (n == 0))
      (op_mod or-IsDigitwise 64 y (swap y) ∙ ap (bit_or (low64 y)) (low-swap y small))
    ∙ ap not (
        bit_or_is_zero (low64 y) (high64 y)
        ∙ ap (λ n. n == 0) {x = low64 y + high64 y} {y = high64 y + low64 y} (omega arith)
        ∙ halves_zero y
        ∙ ap (λ n. n == 0) e
        ∙ one_bit_zero x index)
    ∙ not-not (test_bit x index)
