-- ===== src/Tests/Samples.antt =====
-- Two integers modulo 100 from 20 bytes, and the samples of a 128-bit base integer.
use distributed_point_functi.Base.{
  ℕ, ◌-◌, ◌*◌, ◌^◌, ◌<◌, ◌≡◌, refl, List, [], ◌∷◌, All, ok, err, length, arith, invalid_argument,
}
use distributed_point_functi.Security.{get_num_bytes_required, check_parameters, get_security_level}
use distributed_point_functi.Values.{mod_int, tuple_of, elements}
use distributed_point_functi.Values.Bytes.{from_bytes}
use distributed_point_functi.Values.Samples.{
  sample_from_bytes, samples_from, next_random, size_as_int,
}
use distributed_point_functi.Values.Samples.Tuples.{copies, joined, sample_from_bytes-from_bytes}
use distributed_point_functi.Values.Samples.Errors.{sample_from_bytes_lem}
use distributed_point_functi.Tests.Doubles.{whole, log_up}

abbrev bytes : List ℕ
bytes =
    1 ∷ 2 ∷ 3 ∷ 4 ∷ 5 ∷ 6 ∷ 7 ∷ 8 ∷ 9 ∷ 10 ∷ 11 ∷ 12 ∷ 13 ∷ 14 ∷ 15 ∷ 16 ∷ 17 ∷ 18 ∷ 19 ∷ 20 ∷ []

demanded : get_num_bytes_required {W = ℕ} 2 (8 * 4) 100 40 ≡ ok 20
unfolding get_num_bytes_required check_parameters get_security_level log_up
demanded = refl

sample_from_bytes-from_bytes_example :
    (samples : List ℕ) × (sample_from_bytes {W = ℕ} 4 100 2 40 bytes ≡ ok samples)
    × (from_bytes (tuple_of (copies 2 (mod_int 4 100))) bytes ≡ ok (elements (joined samples)))
    × (length samples ≡ 2)
    × All (λ s. s < 100) samples
sample_from_bytes-from_bytes_example =
    sample_from_bytes-from_bytes {W = ℕ} 4 100 40 bytes 1 20 (omega arith) (omega arith) demanded
      (omega arith)

no_bytes : sample_from_bytes {W = ℕ} 4 100 2 40 [] ≡ err invalid_argument
unfolding sample_from_bytes size_as_int get_num_bytes_required check_parameters get_security_level
    log_up
no_bytes = refl

sample_from_bytes_lem_example : invalid_argument ≡ invalid_argument
sample_from_bytes_lem_example =
    sample_from_bytes_lem {W = ℕ} 4 100 2 40 [] invalid_argument (omega arith) (omega arith)
      (omega arith) no_bytes

-- The quotient of the first block stays in the second sample, although the next random integer is 0.
quotient_kept : samples_from 16 (2 ^ 100) (2 ^ 128 - 1) (0 ∷ []) ≡ (2 ^ 100 - 1) ∷ (2 ^ 28 - 1) ∷ []
unfolding samples_from next_random
quotient_kept = refl
