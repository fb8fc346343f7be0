-- ===== src/Base/Ints.antt =====
-- The int of C++, of 32 bits. One that is not negative is a number below `int_limit`; one that may be
-- negative is its bit pattern in two's complement, a number below 2 * int_limit.
use Prim.Native.Nat.{ℕ, ◌+◌, ◌*◌, ◌%◌, ◌<◌}
use mathlib.Core.Path.{◌≡◌}
use mathlib.Core.Bool.{Bool, not, ◌&&◌}
use native.Mathlib.Omega.{arith}
use distributed_point_functi.Base.Tests.{ltb, if◌then◌else◌}
use distributed_point_functi.Base.Errors.{Status, ok, crash, guard, ◌>>◌}

abbrev pub int_limit : ℕ
int_limit = 2147483648

-- Whether a + b, for bit patterns, is out of range: the signs are the same, and the sign of the sum is
-- another.
unfoldable pub overflows : ℕ → ℕ → Bool
overflows a b =
    let sum = (a + b) % (2 * int_limit) in
    if ltb a int_limit
    then ltb b int_limit && not (ltb sum int_limit)
    else not (ltb b int_limit) && ltb sum int_limit

-- a + b.
unfoldable pub add_int : ℕ → ℕ → Status ℕ
unfolding overflows
add_int a b = do guard (not (overflows a b)) crash; ok ((a + b) % (2 * int_limit))

pub add_int_small : (a b : ℕ) → a + b < int_limit → add_int a b ≡ ok (a + b)
unfolding add_int
add_int_small a b h = ground arith

pub add_int-eq-ok :
    (a b : ℕ) {c : ℕ} → a < int_limit → b < int_limit → add_int a b ≡ ok c → c ≡ a + b
unfolding add_int
add_int-eq-ok a b p q e = ground arith
