-- ===== src/Validator.antt =====
-- ProtoValidator (dpf/internal/proto_validator.h and .cc): the checks of values and of keys.
pub mod Types
pub mod Create
pub mod Setup
pub mod Valid
pub mod Simple
pub mod Bits
pub mod Context
pub mod Accepts
use distributed_point_functi.Base.{
  ℕ, suc, ◌-◌, ◌^◌, Bool, true, false, not, List, [], ◌∷◌, Option, none, some, Status, ok, err,
  invalid_argument, ◌>>=◌, ◌>>◌, guard, ltb, ◌==◌, if◌then◌else◌, length, get_or, map,
}
use distributed_point_functi.Proto.{
  ValueInteger, Value, Values, int_mod_n, xor_wrapper, nil, cons, integer_not_set, ValueType,
  ValueTypes, type_not_set, integer_type, tuple_type, int_mod_n_type, xor_wrapper_type, no_types,
  more_types, DpfKey, Block,
}
use distributed_point_functi.Values.Convert.{
  value_integer_to_uint128, as_integer, as_tuple, elements_size,
}

-- `value.int_mod_n()` and `value.xor_wrapper()`; the field of another case is an empty message.
abbrev pub int_mod_n_field : Value → ValueInteger
int_mod_n_field (int_mod_n i) = i
int_mod_n_field _ = integer_not_set

abbrev pub xor_wrapper_case : Value → Status ValueInteger
xor_wrapper_case (xor_wrapper i) = ok i
xor_wrapper_case _ = err invalid_argument

abbrev pub types_size : ValueTypes → ℕ
types_size no_types = 0
types_size (more_types t ts) = suc (types_size ts)

unfoldable pub validate_integer_value : ValueInteger → ℕ → Status (Unit {0})
validate_integer_value value bitsize =
    if ltb bitsize 128
    then (do
      value_128 ← value_integer_to_uint128 value
      guard (ltb value_128 (2 ^ bitsize)) invalid_argument)
    else ok tt

-- `ValidateValue(value, type)`.
unfoldable mutual
  unfolding validate_integer_value

  pub validate_value : ValueType → Value → Status (Unit {0})
  validate_value type_not_set value = err invalid_argument
  validate_value (integer_type bitsize) value = do
    i ← as_integer value
    validate_integer_value i bitsize
  validate_value (tuple_type ts) value = do
    vs ← as_tuple value
    guard (elements_size vs == types_size ts) invalid_argument
    validate_values ts vs
  validate_value (int_mod_n_type bitsize modulus) value = do
    validate_integer_value (int_mod_n_field value) bitsize
    value_128 ← value_integer_to_uint128 (int_mod_n_field value)
    modulus_128 ← value_integer_to_uint128 modulus
    guard (ltb value_128 modulus_128) invalid_argument
  validate_value (xor_wrapper_type bitsize) value = do
    i ← xor_wrapper_case value
    validate_integer_value i bitsize

  pub validate_values : ValueTypes → Values → Status (Unit {0})
  validate_values no_types vs = ok tt
  validate_values (more_types t ts) nil = ok tt
  validate_values (more_types t ts) (cons v vs) = do validate_value t v; validate_values ts vs

abbrev pub has_seed : Option Block → Bool
has_seed none = false
has_seed (some b) = true

abbrev pub is_empty {ℓ} : {A : Type ℓ} → List A → Bool
is_empty [] = true
is_empty (x ∷ xs) = false

-- The loop of `ValidateDpfKey` over the hierarchy levels.
unfoldable pub validate_levels : List ℕ → ℕ → List (List Value) → Status (Unit {0})
validate_levels [] tree_levels_needed corrections = ok tt
validate_levels (t ∷ ts) tree_levels_needed corrections =
    let rest = validate_levels ts tree_levels_needed corrections in
    if t == tree_levels_needed - 1
    then rest
    else (do guard (not (is_empty (get_or corrections t []))) invalid_argument; rest)

-- `ValidateDpfKey`, over the tree level of each hierarchy level and the number of tree levels.
unfoldable pub validate_dpf_key : List ℕ → ℕ → DpfKey → Status (Unit {0})
validate_dpf_key hierarchy_to_tree tree_levels_needed key = do
  guard (has_seed key.seed) invalid_argument
  guard (not (is_empty key.last_level_value_correction)) invalid_argument
  guard (length key.correction_words == tree_levels_needed - 1) invalid_argument
  validate_levels hierarchy_to_tree tree_levels_needed
      (map (λ w. w.value_correction) key.correction_words)
