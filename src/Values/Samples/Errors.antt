-- ===== src/Values/Samples/Errors.antt =====
-- The errors of `SampleFromBytes` (dpf/int_mod_n.h and .cc), whose checks are to protect
-- `UnsafeSampleFromBytes`, which reads without checking.
use distributed_point_functi.Base.{
  ℕ, zero, suc, ◌-◌, ◌*◌, ◌^◌, ◌≡◌, List, not, ◌&&◌, ◌==◌, ltb, leb, length, err, Code,
  invalid_argument, guard, Refuses, >>=-Refuses, ok-Refuses, guard-Refuses, le_of_guard, subst, ap,
  sym, arith, int_limit, lt→ltb, ◌+◌, ◌<◌, ◌/◌,
}
use distributed_point_functi.Security.{Double, check_parameters, get_num_bytes_required}
use distributed_point_functi.Values.Samples.{sample_from_bytes}
use distributed_point_functi.Values.Samples.Tuples.{
  unsafe_sample_from_bytes-sampled, bytes_demanded, size_as_int_lem,
}

module _ {ℓ} {W : Type ℓ} ⦃double : Double W⦄ where
  check_parameters-Refuses :
      (num_samples bitsize modulus : ℕ) (security_parameter : W)
      → num_samples + 1 < int_limit
      → Refuses invalid_argument (check_parameters num_samples bitsize modulus security_parameter)
  unfolding check_parameters
  check_parameters-Refuses num_samples bitsize modulus security_parameter few =
      rw (lt→ltb (num_samples + 1) int_limit few) (
        >>=-Refuses (guard (ltb 0 num_samples) invalid_argument) (guard-Refuses _ _) (λ _ _.
          >>=-Refuses (guard (ltb 0 bitsize) invalid_argument) (guard-Refuses _ _) (λ _ _.
            >>=-Refuses (guard (leb bitsize 128) invalid_argument) (guard-Refuses _ _) (λ _ _.
              >>=-Refuses
                (guard (not (ltb bitsize 128 && ltb (2 ^ bitsize) modulus)) invalid_argument)
                (guard-Refuses _ _) (λ _ _. guard-Refuses _ _)))))

  get_num_bytes_required-Refuses :
      (num_samples size modulus : ℕ) (security_parameter : W)
      → num_samples + 1 < int_limit
      → 16 + size * (num_samples - 1) < int_limit
      → Refuses invalid_argument
          (get_num_bytes_required num_samples (8 * size) modulus security_parameter)
  unfolding get_num_bytes_required
  get_num_bytes_required-Refuses num_samples size modulus security_parameter few fits =
      >>=-Refuses (check_parameters num_samples (8 * size) modulus security_parameter)
        (check_parameters-Refuses num_samples (8 * size) modulus security_parameter few)
        (λ _ _.
          rw
            (
              ap (λ m. 16 + m * (num_samples - 1)) {x = (8 * size + 7) / 8} {y = size}
                  (omega arith),
              lt→ltb (16 + size * (num_samples - 1)) int_limit fits,
            )
            (ok-Refuses _))

  sample_from_bytes-Refuses :
      (size n num_samples : ℕ) (security_parameter : W) (bytes : List ℕ)
      → 0 < n
      → num_samples + 1 < int_limit
      → 16 + size * (num_samples - 1) < int_limit
      → Refuses invalid_argument (sample_from_bytes size n num_samples security_parameter bytes)
  unfolding sample_from_bytes
  sample_from_bytes-Refuses size n zero security_parameter bytes positive few fits = record {
    refuses = λ e same. cc;
  }
  sample_from_bytes-Refuses size n (suc k) security_parameter bytes positive few fits =
      rw (size_as_int_lem (suc k) (omega arith)) (
        >>=-Refuses (guard (not (suc k == 0)) invalid_argument) (guard-Refuses _ _) (λ _ _.
          >>=-Refuses (get_num_bytes_required (suc k) (8 * size) n security_parameter)
            (get_num_bytes_required-Refuses (suc k) size n security_parameter few fits)
            (λ num_bytes e.
              >>=-Refuses (guard (leb num_bytes (length bytes)) invalid_argument)
                (guard-Refuses _ _)
                (λ _ enough.
                  subst (Refuses invalid_argument)
                    (sym (
                      unsafe_sample_from_bytes-sampled size n k bytes
                        (omega (
                          arith,
                          (bytes_demanded size n security_parameter bytes (suc k) e).0,
                          le_of_guard num_bytes (length bytes) invalid_argument enough,
                          ap (λ m. m * size) {x = suc k - 1} {y = k} (omega arith),
                        ))
                        (omega arith) positive))
                    (ok-Refuses _)))))

  -- If the modulus is positive, there are fewer than 2 ^ 31 - 1 samples, and 16 bytes and the bytes
  -- of all samples but one are together fewer than 2 ^ 31, then `SampleFromBytes`, if it fails,
  -- fails with INVALID_ARGUMENT: it does not crash, whatever the bytes and the security parameter
  -- are.
  pub sample_from_bytes_lem :
      (size n num_samples : ℕ) (security_parameter : W) (bytes : List ℕ) (e : Code)
      → 0 < n
      → num_samples + 1 < int_limit
      → 16 + size * (num_samples - 1) < int_limit
      → sample_from_bytes size n num_samples security_parameter bytes ≡ err e
      → e ≡ invalid_argument
  sample_from_bytes_lem size n num_samples security_parameter bytes e positive few fits failed =
      (sample_from_bytes-Refuses size n num_samples security_parameter bytes positive few
          fits).refuses
        e failed
