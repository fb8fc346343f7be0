-- ===== src/Base/Bits.antt =====
-- The laws of `^` on blocks, from the digit recursion that the native operation stands for.
use Prim.Native.Nat.{
  ℕ, zero, suc, ◌+◌, ◌*◌, ◌/◌, ◌%◌, ◌^◌, ◌≤◌, ◌<◌, bit_xor, digits, differ, bit_xor-bitwise,
}
use mathlib.Core.Path.{◌≡◌, refl, sym, ap, subst, ◌∙◌}
use native.Mathlib.Nat.{pow-suc}
use native.Mathlib.Omega.{arith}

-- An operation that a recursion on digits defines: the fuel is at least the first number, and then
-- its amount has no part in the result.
module _ (first : ℕ → ℕ) (digit : ℕ → ℕ → ℕ) where
  digits_agree :
      (x y fuel more : ℕ)
      → x ≤ fuel
      → x ≤ more
      → digits first digit fuel x y ≡ digits first digit more x y
  digits_agree zero y zero zero below below' = refl
  digits_agree zero y zero (suc more) below below' = refl
  digits_agree zero y (suc fuel) zero below below' = refl
  digits_agree zero y (suc fuel) (suc more) below below' = refl
  digits_agree (suc x) y zero more below below' = absurd (omega arith)
  digits_agree (suc x) y (suc fuel) zero below below' = absurd (omega arith)
  digits_agree (suc x) y (suc fuel) (suc more) below below' =
      ap (λ high. high * 2 + digit (suc x % 2) (y % 2))
        (digits_agree (suc x / 2) (y / 2) fuel more (omega (arith, below)) (omega (arith, below')))

  pub lowest_digit :
      (op : ℕ → ℕ → ℕ)
      → ((x y : ℕ) → op x y ≡ digits first digit x x y)
      → ((y : ℕ) → first y ≡ first (y / 2) * 2 + digit 0 (y % 2))
      → (x y : ℕ) → op x y ≡ op (x / 2) (y / 2) * 2 + digit (x % 2) (y % 2)
  lowest_digit op whole at_zero zero y =
      let all : op 0 y ≡ first y = whole 0 y in
      let rest : op 0 (y / 2) ≡ first (y / 2) = whole 0 (y / 2) in
      omega (arith, all, rest, at_zero y)
  lowest_digit op whole at_zero (suc x) y =
      let rest =
        digits_agree (suc x / 2) (y / 2) x (suc x / 2) (omega arith) (omega arith)
        ∙ sym (whole (suc x / 2) (y / 2)) in
      whole (suc x) y ∙ ap (λ high. high * 2 + digit (suc x % 2) (y % 2)) rest

-- The exclusive or of two binary digits.
abbrev digit_xor : ℕ → ℕ → ℕ
digit_xor a b = (a + b) % 2

differ_digits : (x y : ℕ) → x < 2 → y < 2 → differ x y ≡ digit_xor x y
differ_digits zero y h k = omega arith
differ_digits (suc zero) zero h k = refl
differ_digits (suc zero) (suc zero) h k = refl
differ_digits (suc zero) (suc (suc y)) h k = absurd (omega arith)
differ_digits (suc (suc x)) y h k = absurd (omega arith)

pub zero-bit_xor : (b : ℕ) → bit_xor 0 b ≡ b
zero-bit_xor b = bit_xor-bitwise 0 b

pub bit_xor_step : (a b : ℕ) → bit_xor a b ≡ bit_xor (a / 2) (b / 2) * 2 + digit_xor (a % 2) (b % 2)
bit_xor_step a b =
    lowest_digit (λ y. y) differ bit_xor bit_xor-bitwise (λ y. differ_at_zero y) a b
    ∙ ap (λ d. bit_xor (a / 2) (b / 2) * 2 + d)
        (differ_digits (a % 2) (b % 2) (omega arith) (omega arith))
  where
    differ_at_zero : (y : ℕ) → y ≡ y / 2 * 2 + differ 0 (y % 2)
    differ_at_zero y = omega (arith, differ_digits 0 (y % 2) (omega arith) (omega arith))

bit_xor_comm_fuel : (n a b : ℕ) → a ≤ n → b ≤ n → bit_xor a b ≡ bit_xor b a
bit_xor_comm_fuel n zero zero p q = refl
bit_xor_comm_fuel zero zero (suc b) p q = absurd (omega arith)
bit_xor_comm_fuel zero (suc a) b p q = absurd (omega arith)
bit_xor_comm_fuel (suc n) zero (suc b) p q = omega (
  arith,
  bit_xor_step 0 (suc b),
  bit_xor_step (suc b) 0,
  bit_xor_comm_fuel n 0 (suc b / 2) (omega arith) (omega arith),
)
bit_xor_comm_fuel (suc n) (suc a) b p q = omega (
  arith,
  bit_xor_step (suc a) b,
  bit_xor_step b (suc a),
  bit_xor_comm_fuel n (suc a / 2) (b / 2) (omega arith) (omega arith),
)

pub bit_xor_comm : (a b : ℕ) → bit_xor a b ≡ bit_xor b a
bit_xor_comm a b = bit_xor_comm_fuel (a + b) a b (omega arith) (omega arith)

-- Shifting by one bit and taking the lowest bit go through `^`.
pub xor_half : (a b : ℕ) → bit_xor a b / 2 ≡ bit_xor (a / 2) (b / 2)
xor_half a b = omega (arith, bit_xor_step a b)

pub xor_low : (a b : ℕ) → bit_xor a b % 2 ≡ digit_xor (a % 2) (b % 2)
xor_low a b = omega (arith, bit_xor_step a b)

bit_xor_cancel_fuel : (n a b : ℕ) → a ≤ n → bit_xor a (bit_xor a b) ≡ b
bit_xor_cancel_fuel n zero b p = omega (arith, zero-bit_xor b, zero-bit_xor (bit_xor 0 b))
bit_xor_cancel_fuel zero (suc a) b p = absurd (omega arith)
bit_xor_cancel_fuel (suc n) (suc a) b p =
    rw (bit_xor_step (suc a) (bit_xor (suc a) b), xor_half (suc a) b)
      (omega
        (arith, bit_xor_step (suc a) b, bit_xor_cancel_fuel n (suc a / 2) (b / 2) (omega arith)))

pub bit_xor_cancel : (a b : ℕ) → bit_xor a (bit_xor a b) ≡ b
bit_xor_cancel a b = bit_xor_cancel_fuel a a b (omega arith)

pub bit_xor-zero : (a : ℕ) → bit_xor a 0 ≡ a
bit_xor-zero a = omega (arith, bit_xor_comm a 0, zero-bit_xor a)

pub bit_xor_self : (a : ℕ) → bit_xor a a ≡ 0
bit_xor_self a = subst (λ t. bit_xor a t ≡ 0) (bit_xor-zero a) (bit_xor_cancel a 0)

bit_xor_assoc_fuel :
    (n a b c : ℕ) → a ≤ n → b ≤ n → bit_xor (bit_xor a b) c ≡ bit_xor a (bit_xor b c)
bit_xor_assoc_fuel n zero b c p q = rw (zero-bit_xor b, zero-bit_xor (bit_xor b c))
bit_xor_assoc_fuel zero (suc a) b c p q = absurd (omega arith)
bit_xor_assoc_fuel (suc n) (suc a) b c p q =
    rw
      (
        bit_xor_step (bit_xor (suc a) b) c,
        bit_xor_step (suc a) (bit_xor b c),
        xor_half (suc a) b,
        xor_half b c,
      )
      (omega (
        arith,
        xor_low (suc a) b,
        xor_low b c,
        bit_xor_assoc_fuel n (suc a / 2) (b / 2) (c / 2) (omega arith) (omega arith),
      ))

pub bit_xor_assoc : (a b c : ℕ) → bit_xor (bit_xor a b) c ≡ bit_xor a (bit_xor b c)
bit_xor_assoc a b c = bit_xor_assoc_fuel (a + b) a b c (omega arith) (omega arith)

pub bit_xor-lt : (k a b : ℕ) → a < 2 ^ k → b < 2 ^ k → bit_xor a b < 2 ^ k
bit_xor-lt zero a b p q =
    omega (arith, bit_xor_step a b, zero-bit_xor b, ap (λ t. bit_xor t b) zeroed)
  where
    zeroed : a ≡ 0
    zeroed = omega arith
bit_xor-lt (suc k) a b p q = omega (
  arith,
  pow-suc 2 k,
  bit_xor_step a b,
  bit_xor-lt k (a / 2) (b / 2) (omega (arith, pow-suc 2 k)) (omega (arith, pow-suc 2 k)),
)
