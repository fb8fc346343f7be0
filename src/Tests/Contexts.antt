-- ===== src/Tests/Contexts.antt =====
-- Evaluation contexts of a DPF with two hierarchy levels, of 4 and 16 points, with 64-bit values.
use distributed_point_functi.Base.{
  ℕ, ◌+◌, ◌^◌, ◌≤◌, ◌≡◌, refl, true, false, List, [], ◌∷◌, map, some, none, ok, arith, upto,
  concat_map,
}
use distributed_point_functi.Proto.{
  value_uint64, Value, integer, integer_type, DpfKey, CorrectionWord, DpfParameters,
}
use distributed_point_functi.EvaluatePrg.Walk.{walk}
use distributed_point_functi.Values.{Element, uint, number, uint_supported}
use distributed_point_functi.Values.Convert.{
  to_value_type, from_value, value_integer_to_uint128, uint128_to,
}
use distributed_point_functi.Values.Bytes.{
  can_be_converted_directly, total_bit_size, elements_per_block,
}
use distributed_point_functi.Values.Bytes.Enough.{bytes_read}
use distributed_point_functi.Values.Correction.{values_to_array, from_each_value}
use distributed_point_functi.Validator.{validate_dpf_key, validate_levels}
use distributed_point_functi.Validator.Types.{value_types_are_equal}
use distributed_point_functi.Validator.Create.{ProtoValidator, get_default_security_parameter}
use distributed_point_functi.Validator.Context.{
  EvaluationContext, levels_done, almost_equal, security_parameters_agree, parameters_are_equal,
  all_parameters_match, validate_optional_key, validate_evaluation_context,
  create_evaluation_context,
}
use distributed_point_functi.Dpf.{
  Dpf, parse, find, get_value_correction_function, find_function, same_bytes,
}
use distributed_point_functi.Dpf.Evaluate.{all_in_domain, value_correction_at, evaluate_at}
use distributed_point_functi.Dpf.Expand.{expand_seeds}
use distributed_point_functi.Dpf.Expand.Subtree.{expansion_of, expand_seeds_lem}
use distributed_point_functi.Dpf.Context.{with_previous_level}
use distributed_point_functi.Dpf.Correct.Level.{IsLevel, inner}
use distributed_point_functi.Dpf.Until.{check_until, evaluate_until}
use distributed_point_functi.Dpf.Until.First.{evaluate_until-evaluate_at}
use distributed_point_functi.Dpf.Until.Calls.{
  no_call, call, Calls-bounded, evaluate_until-validates,
}
use distributed_point_functi.Tests.Setup.{prg, prg_Prg, word}
use distributed_point_functi.Tests.Doubles.{whole}

abbrev level_parameters : ℕ → DpfParameters
level_parameters size = record { log_domain_size = size; value_type = some (integer_type 64) }

abbrev pub two_levels : Dpf
two_levels = record {
  parameters = level_parameters 2 ∷ level_parameters 4 ∷ [];
  tree_levels_needed = 4;
  tree_to_hierarchy = (3, 1) ∷ (1, 0) ∷ [];
  hierarchy_to_tree = 1 ∷ 3 ∷ [];
  blocks_needed = 1 ∷ 1 ∷ [];
  prg_left = prg 3;
  prg_right = prg 4;
  prg_value = prg 7;
  serialize = λ t. 8 ∷ [];
  value_correction_functions = (8 ∷ [], uint 8) ∷ [];
}

abbrev validator : ProtoValidator ℕ
validator = record {
  parameters =
      record { parameters = level_parameters 2; security_parameter = 42 }
      ∷ record { parameters = level_parameters 4; security_parameter = 44 }
      ∷ [];
  tree_levels_needed = 4;
  tree_to_hierarchy = (3, 1) ∷ (1, 0) ∷ [];
  hierarchy_to_tree = 1 ∷ 3 ∷ [];
}

abbrev corrections : List Value
corrections = integer (value_uint64 11) ∷ integer (value_uint64 12) ∷ []

abbrev word_with : List Value → CorrectionWord
word_with values = record {
  seed = record { high = 5; low = 6 };
  control_left = true;
  control_right = false;
  value_correction = values;
}

abbrev pub key : DpfKey
key = record {
  seed = some (record { high = 0; low = 77 });
  correction_words = word ∷ word_with corrections ∷ word_with [] ∷ [];
  party = 1;
  last_level_value_correction = corrections;
}

abbrev pub context : EvaluationContext ℕ
context = record {
  parameters = validator.parameters;
  key = some key;
  previous_hierarchy_level = none;
  partial_evaluations = [];
  partial_evaluations_level = some 0;
}

creates_context : create_evaluation_context validator key ≡ ok context
unfolding create_evaluation_context validate_dpf_key validate_levels
creates_context = refl

expand_seeds_lem_example :
    expand_seeds two_levels
      (expansion_of (record { seed = 77; control_bit = true } ∷ []))
      (word ∷ word_with [] ∷ [])
    ≡ ok (
        expansion_of (
          concat_map
            (λ n.
              map
                (λ p.
                  walk
                    (prg_Prg 3).block
                    (prg_Prg 4).block
                    (map parse (word ∷ word_with [] ∷ []))
                    p
                    n)
                (upto 0 (2 ^ 2)))
            (record { seed = 77; control_bit = true } ∷ [])))
expand_seeds_lem_example =
    expand_seeds_lem two_levels (prg_Prg 3) (prg_Prg 4) (word ∷ word_with [] ∷ [])
      (record { seed = 77; control_bit = true } ∷ []) (omega arith)

checks : check_until two_levels validator (uint 8) 0 [] context ≡ ok tt
unfolding check_until validate_evaluation_context all_parameters_match parameters_are_equal
    security_parameters_agree almost_equal get_default_security_parameter value_types_are_equal
    validate_optional_key validate_dpf_key validate_levels to_value_type all_in_domain
checks = refl

registered : get_value_correction_function two_levels 0 ≡ ok (uint 8)
unfolding get_value_correction_function find_function same_bytes
registered = refl

block_fits : 2 ≤ elements_per_block (uint 8)
unfolding elements_per_block can_be_converted_directly total_bit_size
block_fits = omega arith

enough : bytes_read (uint 8) ≤ 16
unfolding bytes_read elements_per_block can_be_converted_directly total_bit_size
enough = omega arith

found : find 1 two_levels.tree_to_hierarchy ≡ some 0
unfolding find
found = refl

level : IsLevel two_levels (uint 8) 0
level = record {
  supported = uint_supported;
  registered = registered;
  place = inner (omega arith) (omega arith) found;
  level_fits = omega arith;
  domain_fits = omega arith;
  bounded = omega arith;
  tree_fits = omega arith;
  block_fits = block_fits;
}

reads :
    values_to_array (uint 8) (value_correction_at two_levels key 0)
    ≡ ok (number 11 ∷ number 12 ∷ [])
unfolding values_to_array from_each_value from_value value_integer_to_uint128 uint128_to
    value_correction_at elements_per_block can_be_converted_directly total_bit_size
reads = refl

evaluate_until-evaluate_at_example :
    (outputs : List Element) × (evaluate_until two_levels validator (uint 8) 0 [] context
      ≡ ok (outputs, with_previous_level context 0))
    × (evaluate_at two_levels (uint 8) key 0 (upto 0 (2 ^ 2)) ≡ ok outputs)
evaluate_until-evaluate_at_example =
    evaluate_until-evaluate_at two_levels validator (uint 8) 0 context key refl refl refl
      (prg_Prg 3) (prg_Prg 4) (prg_Prg 7) (number 11 ∷ number 12 ∷ []) level enough reads checks

-- The call above succeeds.
first_call :
    (outputs : List Element) × (evaluate_until two_levels validator (uint 8) 0 [] context
      ≡ ok (outputs, with_previous_level context 0))
first_call =
    let (outputs, e, _) =
      evaluate_until-evaluate_at two_levels validator (uint 8) 0 context key refl refl refl
        (prg_Prg 3) (prg_Prg 4) (prg_Prg 7) (number 11 ∷ number 12 ∷ []) level enough reads
        checks in
    (outputs, e)

Calls-bounded_example : 1 + levels_done context.previous_hierarchy_level ≤ 2
Calls-bounded_example =
    Calls-bounded two_levels validator 1 context (with_previous_level context 0) (omega arith)
      (call (uint 8) 0 [] first_call.0 first_call.1 no_call)

evaluate_until-validates_example :
    validate_evaluation_context validator (with_previous_level context 0) ≡ ok tt
evaluate_until-validates_example =
    evaluate_until-validates two_levels validator (uint 8) 0 [] context
      (with_previous_level context 0) first_call.0 refl (omega arith) first_call.1
