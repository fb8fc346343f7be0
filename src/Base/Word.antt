-- ===== src/Base/Word.antt =====
-- absl::uint128 as a number below 2 ^ 128, with its two halves and the wrap-around written out.
use Prim.Native.Nat.{ℕ, zero, suc, ◌+◌, ◌*◌, ◌/◌, ◌%◌, ◌^◌}
use mathlib.Core.Path.{◌≡◌, sym, ◌∙◌, ap}
use mathlib.Core.Bool.{Bool}
use native.Mathlib.Nat.{pow-succ', pow-suc, add-zero, add-suc, div-div-eq-div-mul}
use native.Mathlib.Omega.{arith}
use distributed_point_functi.Base.Tests.{◌==◌}

abbrev pub u64_mod : ℕ
u64_mod = 2 ^ 64

abbrev pub u128_mod : ℕ
u128_mod = 2 ^ 128

abbrev pub high64 : ℕ → ℕ
high64 x = x / u64_mod

abbrev pub low64 : ℕ → ℕ
low64 x = x % u64_mod

abbrev pub make_uint128 : ℕ → ℕ → ℕ
make_uint128 high low = high * u64_mod + low

pub make-high64-low64 : (x : ℕ) → make_uint128 (high64 x) (low64 x) ≡ x
make-high64-low64 x = omega arith

-- `(x & (1 << k)) != 0`.
unfoldable pub test_bit : ℕ → ℕ → Bool
test_bit x k = x / 2 ^ k % 2 == 1

pub div-pow-suc : (x k : ℕ) → x / 2 ^ suc k ≡ x / 2 / 2 ^ k
div-pow-suc x k = ap (λ t. x / t) (pow-succ' 2 k) ∙ sym (div-div-eq-div-mul x 2 (2 ^ k))

pub test_bit-suc : (x k : ℕ) → test_bit x (suc k) ≡ test_bit (x / 2) k
unfolding test_bit
test_bit-suc x k = ap (λ t. t % 2 == 1) (div-pow-suc x k)

pub pow-add : (a b : ℕ) → 2 ^ (a + b) ≡ 2 ^ a * 2 ^ b
pow-add a zero = rw add-zero (omega arith)
pow-add a (suc b) =
    ap (λ t. 2 ^ t) (add-suc a b)
    ∙ pow-suc 2 (a + b)
    ∙ omega (
      arith,
      ap (λ (t : ℕ). t * 2) (pow-add a b),
      pow-suc 2 b,
      ap (λ (t : ℕ). 2 ^ a * t) (pow-suc 2 b),
    )
