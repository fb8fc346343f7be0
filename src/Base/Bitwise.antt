-- ===== src/Base/Bitwise.antt =====
-- The laws of `&` and `|` beside those of `^`, from the digit recursion that the native operations
-- stand for: all three go through halving, so they act on the two halves of a number.
use Prim.Native.Nat.{
  ℕ, zero, suc, ◌+◌, ◌-◌, ◌*◌, ◌/◌, ◌%◌, ◌^◌, ◌≤◌, ◌<◌, bit_and, bit_or, bit_xor, min, max,
  bit_and-bitwise, bit_or-bitwise,
}
use mathlib.Core.Path.{◌≡◌, refl, sym, ap, ap₂, ◌∙◌}
use native.Mathlib.Nat.{pow-suc, one-le-pow, div-add-mod, div-one, mod-one}
use native.Mathlib.Omega.{arith}
use distributed_point_functi.Base.Tests.{◌==◌}
use distributed_point_functi.Base.Bits.{bit_xor_step, lowest_digit}
use distributed_point_functi.Base.Word.{div-pow-suc}

pub zero-bit_and : (b : ℕ) → bit_and 0 b ≡ 0
zero-bit_and b = bit_and-bitwise 0 b

pub zero-bit_or : (b : ℕ) → bit_or 0 b ≡ b
zero-bit_or b = bit_or-bitwise 0 b

pub bit_and_step : (a b : ℕ) → bit_and a b ≡ bit_and (a / 2) (b / 2) * 2 + min (a % 2) (b % 2)
bit_and_step = lowest_digit (λ b. 0) min bit_and bit_and-bitwise (λ y. omega arith)

pub bit_or_step : (a b : ℕ) → bit_or a b ≡ bit_or (a / 2) (b / 2) * 2 + max (a % 2) (b % 2)
bit_or_step = lowest_digit (λ b. b) max bit_or bit_or-bitwise (λ y. omega arith)

-- The lowest bits of a number from those of its half.
mod-pow-suc : (x k : ℕ) → x % 2 ^ suc k ≡ x / 2 % 2 ^ k * 2 + x % 2
mod-pow-suc x k = omega (
  arith,
  div-add-mod x (2 ^ suc k),
  div-add-mod (x / 2) (2 ^ k),
  ap₂ (λ a b. a * b) (pow-suc 2 k) (div-pow-suc x k),
)

half_of_mod : (x k : ℕ) → x % 2 ^ suc k / 2 ≡ x / 2 % 2 ^ k
half_of_mod x k = omega (arith, mod-pow-suc x k)

low_of_mod : (x k : ℕ) → x % 2 ^ suc k % 2 ≡ x % 2
low_of_mod x k = omega (arith, mod-pow-suc x k)

-- An operation on binary digits.
pub record IsDigitwise (op digit : ℕ → ℕ → ℕ) : Type 0 where
  pub step : (a b : ℕ) → op a b ≡ op (a / 2) (b / 2) * 2 + digit (a % 2) (b % 2)
  pub small : (a b : ℕ) → a < 2 → b < 2 → digit a b < 2
  pub zeros : op 0 0 ≡ 0

module _ {op digit : ℕ → ℕ → ℕ} (d : IsDigitwise op digit) where
  half : (a b : ℕ) → op a b / 2 ≡ op (a / 2) (b / 2)
  half a b = omega (arith, d.step a b, d.small (a % 2) (b % 2) (omega arith) (omega arith))

  low : (a b : ℕ) → op a b % 2 ≡ digit (a % 2) (b % 2)
  low a b = omega (arith, d.step a b, d.small (a % 2) (b % 2) (omega arith) (omega arith))

  pub op_div : (k a b : ℕ) → op a b / 2 ^ k ≡ op (a / 2 ^ k) (b / 2 ^ k)
  op_div zero a b = div-one (op a b) ∙ sym (ap₂ op (div-one a) (div-one b))
  op_div (suc k) a b =
      rw (div-pow-suc (op a b) k, half a b, div-pow-suc a k, div-pow-suc b k)
        (op_div k (a / 2) (b / 2))

  pub op_mod : (k a b : ℕ) → op a b % 2 ^ k ≡ op (a % 2 ^ k) (b % 2 ^ k)
  op_mod zero a b = mod-one (op a b) ∙ sym (ap₂ op (mod-one a) (mod-one b) ∙ d.zeros)
  op_mod (suc k) a b =
      mod-pow-suc (op a b) k
      ∙ ap₂ (λ u v. u * 2 + v) (ap (λ n. n % 2 ^ k) (half a b) ∙ op_mod k (a / 2) (b / 2)) (low a b)
      ∙ ap₂ (λ u v. u * 2 + v) (ap₂ op (sym (half_of_mod a k)) (sym (half_of_mod b k)))
          (ap₂ digit (sym (low_of_mod a k)) (sym (low_of_mod b k)))
      ∙ sym (d.step (a % 2 ^ suc k) (b % 2 ^ suc k))

pub and-IsDigitwise : IsDigitwise bit_and min
and-IsDigitwise = record {
  step = bit_and_step;
  small = λ a b h h'. omega arith;
  zeros = zero-bit_and 0;
}

pub or-IsDigitwise : IsDigitwise bit_or max
or-IsDigitwise = record {
  step = bit_or_step;
  small = λ a b h h'. omega arith;
  zeros = zero-bit_or 0;
}

pub xor-IsDigitwise : IsDigitwise bit_xor (λ a b. (a + b) % 2)
xor-IsDigitwise = record { step = bit_xor_step; small = λ a b h h'. omega arith; zeros = refl }

-- All ones keep the lowest bits.
pub ones-bit_and : (k x : ℕ) → bit_and (2 ^ k - 1) x ≡ x % 2 ^ k
ones-bit_and zero x = zero-bit_and x ∙ sym (mod-one x)
ones-bit_and (suc k) x =
    bit_and_step (2 ^ suc k - 1) x
    ∙ ap₂ (λ u v. u * 2 + v)
        (ap (λ n. bit_and n (x / 2)) {x = (2 ^ suc k - 1) / 2} {y = 2 ^ k - 1}
            (omega (arith, pow-suc 2 k, one-le-pow k 2 (omega arith)))
          ∙ ones-bit_and k (x / 2))
        (omega (arith, pow-suc 2 k, one-le-pow k 2 (omega arith)))
    ∙ sym (mod-pow-suc x k)

bit_and-zero : (n a : ℕ) → a ≤ n → bit_and a 0 ≡ 0
bit_and-zero n zero p = zero-bit_and 0
bit_and-zero zero (suc a) p = absurd (omega arith)
bit_and-zero (suc n) (suc a) p =
    omega (arith, bit_and_step (suc a) 0, bit_and-zero n (suc a / 2) (omega arith))

bit_and_comm_fuel : (n a b : ℕ) → a ≤ n → bit_and a b ≡ bit_and b a
bit_and_comm_fuel n zero b p = zero-bit_and b ∙ sym (bit_and-zero b b (omega arith))
bit_and_comm_fuel zero (suc a) b p = absurd (omega arith)
bit_and_comm_fuel (suc n) (suc a) b p = omega (
  arith,
  bit_and_step (suc a) b,
  bit_and_step b (suc a),
  bit_and_comm_fuel n (suc a / 2) (b / 2) (omega arith),
)

pub bit_and_comm : (a b : ℕ) → bit_and a b ≡ bit_and b a
bit_and_comm a b = bit_and_comm_fuel a a b (omega arith)

-- A single bit.
pub bit_and-pow : (k x : ℕ) → bit_and x (2 ^ k) ≡ x / 2 ^ k % 2 * 2 ^ k
bit_and-pow zero x =
    omega (arith, bit_and_step x 1, bit_and-zero (x / 2) (x / 2) (omega arith), div-one x)
bit_and-pow (suc k) x = omega (
  arith,
  bit_and_step x (2 ^ suc k),
  ap (bit_and (x / 2)) {x = 2 ^ suc k / 2} {y = 2 ^ k} (omega (arith, pow-suc 2 k)),
  bit_and-pow k (x / 2),
  div-pow-suc x k,
  ap₂ (λ u v. u % 2 * v) (div-pow-suc x k) (pow-suc 2 k),
  pow-suc 2 k,
)

-- Either number is a lower bound of `|`.
bit_or_bounds_fuel : (n a b : ℕ) → a ≤ n → (a ≤ bit_or a b) × (b ≤ bit_or a b)
bit_or_bounds_fuel n zero b p = (omega arith, omega (arith, zero-bit_or b))
bit_or_bounds_fuel zero (suc a) b p = absurd (omega arith)
bit_or_bounds_fuel (suc n) (suc a) b p =
    let (u, v) = bit_or_bounds_fuel n (suc a / 2) (b / 2) (omega arith) in
    (omega (arith, bit_or_step (suc a) b, u), omega (arith, bit_or_step (suc a) b, v))

-- `|` is zero if both numbers are.
pub bit_or_is_zero : (a b : ℕ) → (bit_or a b == 0) ≡ (a + b == 0)
bit_or_is_zero zero b = ap (λ u. u == 0) {x = bit_or 0 b} {y = 0 + b} (omega (arith, zero-bit_or b))
bit_or_is_zero (suc a) b =
    let (u, v) = bit_or_bounds_fuel (suc a) (suc a) b (omega arith) in ground (arith, u)
