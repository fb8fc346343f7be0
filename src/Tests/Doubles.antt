-- ===== src/Tests/Doubles.antt =====
-- Whole numbers in place of doubles, with a logarithm that is rounded up.
use native.Mathlib.Nat.{pow-suc}
use distributed_point_functi.Base.{
  ℕ, zero, suc, ◌+◌, ◌-◌, ◌/◌, ◌^◌, ◌≤◌, false, ltb, leb, ◌==◌, arith, gt→leb, if◌then◌else◌,
}
use distributed_point_functi.Security.{Double}
use distributed_point_functi.Validator.Bits.{RoundsUp}

-- The logarithm to base 2, rounded up, with fuel.
unfoldable pub log_up : ℕ → ℕ → ℕ
log_up zero n = 0
log_up (suc fuel) n = let more = log_up fuel ((n + 1) / 2) in if leb n 1 then 0 else suc more

instance abbrev pub whole : Double ℕ
whole = record {
  of_int = λ n. n;
  plus = λ a b. a + b;
  minus = λ a b. a - b;
  abs = λ a. a;
  log2 = λ a. log_up a a;
  ceil_int = λ a. a;
  is_nan = λ a. false;
  eq = λ a b. a == b;
  lt = ltb;
  le = leb;
  epsilon = 0;
}

log_up-rounds_up : (fuel n : ℕ) → n ≤ fuel → n ≤ 2 ^ log_up fuel n
unfolding log_up
log_up-rounds_up zero n h = omega arith
log_up-rounds_up (suc fuel) zero h = omega arith
log_up-rounds_up (suc fuel) (suc zero) h = omega arith
log_up-rounds_up (suc fuel) (suc (suc n)) h = rw (gt→leb (suc (suc n)) 1 (omega arith)) (
    omega (
      arith,
      pow-suc 2 (log_up fuel ((suc (suc n) + 1) / 2)),
      log_up-rounds_up fuel ((suc (suc n) + 1) / 2) (omega arith),
    ))

pub whole-RoundsUp : RoundsUp whole
whole-RoundsUp b h _ = log_up-rounds_up b b (omega arith)
