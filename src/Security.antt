-- ===== src/Security.antt =====
-- The security level of sampling integers modulo N (dpf/int_mod_n.h and .cc), and all that the code
-- does with a `double`. Floating point arithmetic is a parameter.
use distributed_point_functi.Base.{
  ℕ, ◌+◌, ◌-◌, ◌*◌, ◌/◌, ◌^◌, Bool, not, ◌&&◌, Status, ok, invalid_argument, crash, ◌>>◌, guard,
  ltb, leb, int_limit,
}

-- A `double`, with the operations of C++ and of <cmath> that the code uses. `of_int` converts an
-- integer, and `ceil_int` is `static_cast<int>(std::ceil(x))` of an x that is not negative.
pub record Double {ℓ} (W : Type ℓ) : Type ℓ where
  pub of_int : ℕ → W
  pub plus : W → W → W
  pub minus : W → W → W
  pub abs : W → W
  pub log2 : W → W
  pub ceil_int : W → ℕ
  pub is_nan : W → Bool
  pub eq : W → W → Bool
  pub lt : W → W → Bool
  pub le : W → W → Bool
  -- The constant 0.0001.
  pub epsilon : W

module _ {ℓ} {W : Type ℓ} ⦃double : Double W⦄ where
  -- `IntModNBase::GetSecurityLevel`.
  unfoldable pub get_security_level : ℕ → ℕ → W
  get_security_level num_samples modulus = double.minus (double.of_int (128 + 3)) (
      double.plus
        (double.plus (double.log2 (double.of_int modulus))
          (double.log2 (double.of_int num_samples)))
        (double.log2 (double.of_int (num_samples + 1))))

  -- `IntModNBase::CheckParameters`, for a number of samples that is an int and not negative; a negative
  -- one is refused as 0 is. `GetSecurityLevel` adds 1 to it as an int.
  unfoldable pub check_parameters : ℕ → ℕ → ℕ → W → Status (Unit {0})
  unfolding get_security_level
  check_parameters num_samples base_integer_bitsize modulus security_parameter = do
    guard (ltb 0 num_samples) invalid_argument
    guard (ltb 0 base_integer_bitsize) invalid_argument
    guard (leb base_integer_bitsize 128) invalid_argument
    guard (not (ltb base_integer_bitsize 128 && ltb (2 ^ base_integer_bitsize) modulus))
        invalid_argument
    guard (ltb (num_samples + 1) int_limit) crash
    guard (not (double.lt (get_security_level num_samples modulus) security_parameter))
        invalid_argument

  -- `IntModNBase::GetNumBytesRequired`, which computes in int.
  unfoldable pub get_num_bytes_required : ℕ → ℕ → ℕ → W → Status ℕ
  get_num_bytes_required num_samples base_integer_bitsize modulus security_parameter = do
    check_parameters num_samples base_integer_bitsize modulus security_parameter
    let base_integer_bytes = (base_integer_bitsize + 7) / 8
    let num_bytes = 16 + base_integer_bytes * (num_samples - 1)
    guard (ltb num_bytes int_limit) crash
    ok num_bytes
