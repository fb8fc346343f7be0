-- ===== src/Tests/Gates.antt =====
-- The theorem on the interval gate at a concrete input: N = 8, the interval [2, 5], and the input 3
-- under the mask 3.
use distributed_point_functi.Base.{◌+◌, ◌-◌, ◌%◌, ◌^◌, ◌≡◌, refl, ◌&&◌, leb, to_ℕ, arith, u128_mod}
use distributed_point_functi.Mic.{correction_term, second_share, interval_output}
use distributed_point_functi.Mic.Outputs.{interval_output-shares}

interval_output-shares_example :
    (interval_output (2 ^ 3) 0 2 5 6 (10 % 2 ^ 3) (5 % 2 ^ 3) 1
        + interval_output
            (2 ^ 3)
            1
            2
            5
            6
            ((u128_mod - 10) % 2 ^ 3)
            ((u128_mod - 5) % 2 ^ 3)
            (second_share (2 ^ 3) (correction_term (2 ^ 3) 2 5 3 4) 1))
      % 2 ^ 3
    ≡ (4 + to_ℕ (leb 2 ((6 + 2 ^ 3 - 3) % 2 ^ 3) && leb ((6 + 2 ^ 3 - 3) % 2 ^ 3) 5)) % 2 ^ 3
interval_output-shares_example =
    interval_output-shares 3 2 5 6 3 4 1 10 (u128_mod - 10) 5 (u128_mod - 5) (omega arith)
      (omega arith) (omega arith) (omega arith) (omega arith) (omega arith) refl refl
