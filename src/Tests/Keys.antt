-- ===== src/Tests/Keys.antt =====
-- Key generation and evaluation at a concrete input.
use distributed_point_functi.Base.{
  ◌-◌, ◌/◌, ◌^◌, ◌≤◌, ◌≡◌, refl, List, [], ◌∷◌, map, ok, ◌==◌, if◌then◌else◌, arith, test_bit,
  get_or,
}
use distributed_point_functi.Aes.{evaluate, evaluate_from, evaluate_batch, xor_blocks, sigma}
use distributed_point_functi.Proto.{value_not_set}
use distributed_point_functi.Values.{
  uint, Element, number, uint_supported, add, neg, sub, add_base_integer, subtract_base_integer,
  default,
}
use distributed_point_functi.Values.Bytes.{
  bytes_of_blocks, bytes_of, convert_bytes_to_array_of, can_be_converted_directly,
  elements_per_block, total_bit_size, convert_elements, substr, from_bytes, directly_from_bytes,
  uint_from_bytes, little_endian,
}
use distributed_point_functi.Values.Correction.{
  compute_value_correction_for, corrections_of, correction_of, add_at, values_to_array,
  from_each_value, correct_output,
}
use distributed_point_functi.EvaluatePrg.{
  clear_lowest_bit, lowest_bit, path_bit, correct, correct_lanes, evaluate_levels, evaluate_batches,
  evaluate_seeds_no_hwy,
}
use distributed_point_functi.Values.Convert.{
  from_value, value_integer_to_uint128, uint128_to_value_integer, to_value, to_value_type,
  uint128_to,
}
use distributed_point_functi.Validator.{
  validate_value, validate_integer_value, validate_dpf_key, validate_levels,
}
use distributed_point_functi.Dpf.{
  last_log_domain_size, log_domain_size, find, find_function, same_bytes,
  get_value_correction_function, iota, compute_value_correction, domain_to_block_index,
  domain_to_tree_index, evaluate_seeds,
}
use distributed_point_functi.Dpf.Generate.{
  generate_keys_incremental, validate_betas, generate_levels, generate_next, level_value_correction,
  next_state, seed_correction, control_left_correction, control_right_correction, branch,
  current_bit,
}
use distributed_point_functi.Dpf.Evaluate.{
  evaluate_at, all_in_domain, value_correction_at, hash_expanded_seeds, hash_inputs, correct_values,
}
use distributed_point_functi.Dpf.Correct.Level.{IsLevel, last}
use distributed_point_functi.Dpf.Correct.Points.{sums}
use distributed_point_functi.Dpf.Correct.Shares.{evaluate_at-shares}
use distributed_point_functi.Tests.Setup.{prg_Prg, dpf, beta, key, points}

generates : generate_keys_incremental dpf 1000 2000 2 beta ≡ ok (key 0 1000, key 1 2000)
unfolding generate_keys_incremental validate_betas validate_value validate_integer_value
    value_integer_to_uint128 generate_levels generate_next level_value_correction find evaluate
    evaluate_from evaluate_batch xor_blocks sigma next_state seed_correction control_left_correction
    control_right_correction branch clear_lowest_bit lowest_bit current_bit test_bit
    compute_value_correction iota get_value_correction_function find_function domain_to_block_index
    bytes_of_blocks bytes_of compute_value_correction_for from_value uint128_to
    convert_bytes_to_array_of can_be_converted_directly elements_per_block total_bit_size
    convert_elements substr from_bytes directly_from_bytes uint_from_bytes little_endian
    corrections_of correction_of add_at add add_base_integer subtract_base_integer neg sub to_value
    uint128_to_value_integer same_bytes to_value_type
generates = refl

abbrev out_0 : List Element
out_0 = number 16733 ∷ number 16776 ∷ number 16775 ∷ number 16784 ∷ []

abbrev out_1 : List Element
out_1 =
    number 18446744073709534883
    ∷ number 18446744073709534840
    ∷ number 18446744073709534883
    ∷ number 18446744073709534832
    ∷ []

evaluates_0 : evaluate_at dpf (uint 8) (key 0 1000) 0 points ≡ ok out_0
unfolding evaluate_at all_in_domain validate_dpf_key validate_levels value_correction_at
    values_to_array from_each_value from_value value_integer_to_uint128 uint128_to evaluate_seeds
    evaluate_seeds_no_hwy evaluate_batches evaluate_levels correct_lanes correct path_bit test_bit
    clear_lowest_bit lowest_bit evaluate evaluate_from evaluate_batch xor_blocks sigma
    hash_expanded_seeds hash_inputs iota correct_values bytes_of_blocks bytes_of
    convert_bytes_to_array_of can_be_converted_directly elements_per_block total_bit_size
    convert_elements substr from_bytes directly_from_bytes uint_from_bytes little_endian
    correct_output add neg subtract_base_integer add_base_integer domain_to_tree_index
    domain_to_block_index default
evaluates_0 = refl

evaluates_1 : evaluate_at dpf (uint 8) (key 1 2000) 0 points ≡ ok out_1
unfolding evaluate_at all_in_domain validate_dpf_key validate_levels value_correction_at
    values_to_array from_each_value from_value value_integer_to_uint128 uint128_to evaluate_seeds
    evaluate_seeds_no_hwy evaluate_batches evaluate_levels correct_lanes correct path_bit test_bit
    clear_lowest_bit lowest_bit evaluate evaluate_from evaluate_batch xor_blocks sigma
    hash_expanded_seeds hash_inputs iota correct_values bytes_of_blocks bytes_of
    convert_bytes_to_array_of can_be_converted_directly elements_per_block total_bit_size
    convert_elements substr from_bytes directly_from_bytes uint_from_bytes little_endian
    correct_output add neg subtract_base_integer add_base_integer domain_to_tree_index
    domain_to_block_index default
evaluates_1 = refl

registered : get_value_correction_function dpf 0 ≡ ok (uint 8)
unfolding get_value_correction_function find_function same_bytes
registered = refl

block_fits : 2 ≤ elements_per_block (uint 8)
unfolding elements_per_block can_be_converted_directly total_bit_size
block_fits = omega arith

level : IsLevel dpf (uint 8) 0
level = record {
  supported = uint_supported;
  registered = registered;
  place = last refl refl;
  level_fits = omega arith;
  domain_fits = omega arith;
  bounded = omega arith;
  tree_fits = omega arith;
  block_fits = block_fits;
}

reads_beta : from_value (uint 8) (get_or beta 0 value_not_set) ≡ ok (number 42)
unfolding from_value value_integer_to_uint128 uint128_to
reads_beta = refl

evaluate_at-shares_example :
    sums (uint 8) out_0 out_1
    ≡ map
        (λ x.
          if x == 2 / 2 ^ (last_log_domain_size dpf - log_domain_size dpf 0)
          then number 42
          else default (uint 8))
        points
evaluate_at-shares_example =
    evaluate_at-shares dpf (prg_Prg 3) (prg_Prg 4) (prg_Prg 7) (uint 8) 0 2 1000 2000 beta
      (number 42) points (key 0 1000) (key 1 2000) out_0 out_1 level (omega arith) reads_beta
      generates evaluates_0 evaluates_1
