-- ===== src/Validator/Types.antt =====
-- Value types: their validation (dpf/internal/proto_validator.cc), comparison, and the bits that
-- their values need (dpf/internal/value_type_helpers.cc).
use distributed_point_functi.Base.{
  ℕ, zero, suc, ◌-◌, ◌*◌, bit_and, Bool, true, false, ◌&&◌, Option, none, some, Status, ok, err,
  invalid_argument, unimplemented, ◌>>=◌, ◌>>◌, guard, leb, ◌==◌, if◌then◌else◌, ◌%◌, int_limit,
  add_int,
}
use distributed_point_functi.Proto.{
  ValueType, ValueTypes, type_not_set, integer_type, tuple_type, int_mod_n_type, xor_wrapper_type,
  no_types, more_types,
}
use distributed_point_functi.Values.Convert.{value_integer_to_uint128}
use distributed_point_functi.Security.{Double, get_num_bytes_required}
use distributed_point_functi.Validator.{types_size, validate_integer_value}

unfoldable pub validate_integer_type : ℕ → Status (Unit {0})
validate_integer_type bitsize = do
  guard (leb 1 bitsize) invalid_argument
  guard (leb bitsize 128) invalid_argument
  guard (bit_and bitsize (bitsize - 1) == 0) invalid_argument

-- `ValidateValueType`.
unfoldable mutual
  unfolding validate_integer_type validate_integer_value

  pub validate_value_type : ValueType → Status (Unit {0})
  validate_value_type type_not_set = err invalid_argument
  validate_value_type (integer_type bitsize) = validate_integer_type bitsize
  validate_value_type (tuple_type ts) = validate_value_types ts
  validate_value_type (int_mod_n_type bitsize modulus) = do
    validate_integer_type bitsize
    validate_integer_value modulus bitsize
  validate_value_type (xor_wrapper_type bitsize) = validate_integer_type bitsize

  pub validate_value_types : ValueTypes → Status (Unit {0})
  validate_value_types no_types = ok tt
  validate_value_types (more_types t ts) = do validate_value_type t; validate_value_types ts

-- `ValueTypesAreEqual`.
unfoldable mutual
  pub value_types_are_equal : ValueType → ValueType → Status Bool
  value_types_are_equal type_not_set rhs = err invalid_argument
  value_types_are_equal _ type_not_set = err invalid_argument
  value_types_are_equal (integer_type a) (integer_type b) = ok (a == b)
  value_types_are_equal (tuple_type ts) (tuple_type us) =
      let result = all_types_are_equal ts us in
      if types_size ts == types_size us then result else ok false
  value_types_are_equal (int_mod_n_type a m) (int_mod_n_type b n) = do
    lhs_modulus_128 ← value_integer_to_uint128 m
    rhs_modulus_128 ← value_integer_to_uint128 n
    ok ((a == b) && (lhs_modulus_128 == rhs_modulus_128))
  value_types_are_equal (xor_wrapper_type a) (xor_wrapper_type b) = ok (a == b)
  value_types_are_equal _ _ = ok false

  -- The loop over the elements of two tuples of the same size, which does not stop at a difference.
  pub all_types_are_equal : ValueTypes → ValueTypes → Status Bool
  all_types_are_equal (more_types t ts) (more_types u us) = do
    element_result ← value_types_are_equal t u
    result ← all_types_are_equal ts us
    ok (element_result && result)
  all_types_are_equal _ _ = ok true

-- `int_mod_n`, `num_ints_mod_n` and `num_other`.
pub record Counts : Type 0 where
  pub int_mod_n : Option ValueType
  pub num_ints_mod_n : ℕ
  pub num_other : ℕ

abbrev pub is_int_mod_n : ValueType → Bool
is_int_mod_n (int_mod_n_type bitsize modulus) = true
is_int_mod_n _ = false

-- Every element of type IntModN has to equal the first one.
unfoldable pub same_as_first : ValueType → Option ValueType → Status (Unit {0})
unfolding value_types_are_equal
same_as_first el none = ok tt
same_as_first el (some first) = do
  types_are_equal ← value_types_are_equal el first
  guard types_are_equal unimplemented

abbrev pub or_else {ℓ} : {A : Type ℓ} → Option A → A → Option A
or_else none a = some a
or_else (some b) a = some b

-- The first loop of `BitsNeeded` over the elements of a tuple.
unfoldable pub count_elements : ValueTypes → Counts → Status Counts
unfolding same_as_first
count_elements no_types c = ok c
count_elements (more_types el els) c =
    if is_int_mod_n el
    then (do
      same_as_first el c.int_mod_n
      count_elements els (record {
        int_mod_n = or_else c.int_mod_n el;
        num_ints_mod_n = suc c.num_ints_mod_n;
        num_other = c.num_other;
      }))
    else count_elements els (record {
      int_mod_n = c.int_mod_n;
      num_ints_mod_n = c.num_ints_mod_n;
      num_other = suc c.num_other;
    })

module _ {ℓ} {W : Type ℓ} ⦃double : Double W⦄ where
  -- The bits of so many samples of a type IntModN: an int64_t that becomes an int.
  unfoldable pub bits_of_samples : ℕ → ValueType → W → Status ℕ
  unfolding get_num_bytes_required
  bits_of_samples num_samples (int_mod_n_type bitsize modulus) security_parameter = do
    modulus_128 ← value_integer_to_uint128 modulus
    bytes_needed ← get_num_bytes_required num_samples bitsize modulus_128 security_parameter
    ok (bytes_needed * 8 % (2 * int_limit))
  bits_of_samples num_samples _ security_parameter = err invalid_argument

  abbrev pub bits_of_ints_mod_n : Counts → W → Status ℕ
  bits_of_ints_mod_n c security_parameter = elim c.int_mod_n [
    | none ↦ ok 0
    | some t ↦ bits_of_samples c.num_ints_mod_n t security_parameter
  ]

  abbrev pub per_element : W → ℕ → W
  per_element security_parameter num_other =
      double.plus security_parameter (double.log2 (double.of_int num_other))

  -- `BitsNeeded`. An int is its bit pattern in two's complement, since the bits of samples can wrap
  -- around to a negative one.
  unfoldable mutual
    unfolding bits_of_samples count_elements

    pub bits_needed : ValueType → W → Status ℕ
    bits_needed type_not_set security_parameter = err invalid_argument
    bits_needed (integer_type bitsize) security_parameter = ok bitsize
    bits_needed (tuple_type els) security_parameter = do
      c ← count_elements els (record { int_mod_n = none; num_ints_mod_n = 0; num_other = 0 })
      bitsize_other ← bits_of_first els c.num_other (per_element security_parameter c.num_other) 0
      bitsize_ints_mod_n ← bits_of_ints_mod_n c security_parameter
      add_int bitsize_ints_mod_n bitsize_other
    bits_needed (int_mod_n_type bitsize modulus) security_parameter =
        bits_of_samples 1 (int_mod_n_type bitsize modulus) security_parameter
    bits_needed (xor_wrapper_type bitsize) security_parameter = ok bitsize

    -- The loop over `elements(i)` for i < num_other: the first elements, of whatever type.
    pub bits_of_first : ValueTypes → ℕ → W → ℕ → Status ℕ
    bits_of_first els zero security_parameter bitsize_other = ok bitsize_other
    bits_of_first no_types (suc n) security_parameter bitsize_other = ok bitsize_other
    bits_of_first (more_types el els) (suc n) security_parameter bitsize_other = do
      el_bitsize ← bits_needed el security_parameter
      total ← add_int bitsize_other el_bitsize
      bits_of_first els n security_parameter total
