-- ===== src/Values/Convert/Narrow.antt =====
-- The range test of `Uint128To` reads the lower 64 bits alone.
use distributed_point_functi.Base.{
  Bool, false, ℕ, ◌*◌, ◌%◌, ◌-◌, ◌<◌, ◌≤◌, ◌≡◌, ◌≢◌, arith, ok, low64, u64_mod, ◌==◌, not, ◌&&◌,
  le→ltb,
}
use native.Mathlib.Nat.{mod-lt, one-le-pow, pow-le-pow_right}
use distributed_point_functi.Values.{range}
use distributed_point_functi.Values.Convert.{uint128_to}

and-false_of : (a b : Bool) → b ≡ false → (a && b) ≡ false
and-false_of a b h = ground arith

-- For every size of at most 8 bytes, a number with a nonzero upper half is taken for its lower
-- half wherever that is in range, although the number itself is out of range.
pub uint128_to-truncates :
    (size x : ℕ)
    → size ≤ 8
    → u64_mod ≤ x
    → low64 x < range size
    → (uint128_to size x ≡ ok (x % range size)) × (range size ≤ x) × (x % range size ≢ x)
unfolding uint128_to
uint128_to-truncates size x small big low = (
  rw (and-false_of (not (size == 16)) _ (le→ltb (range size - 1) (low64 x) (omega arith))),
  omega (arith, narrow),
  λ e. absurd (omega (arith, narrow, mod-lt x (one-le-pow (8 * size) 2 (omega arith)))),
)
  where
    narrow : range size ≤ u64_mod
    narrow = pow-le-pow_right (omega arith) {i = 8 * size} {j = 64} (omega arith)
