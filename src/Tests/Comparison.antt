-- ===== src/Tests/Comparison.antt =====
-- A comparison function on two bits with 64-bit outputs, and a gate on a group of four elements, both
-- constructed.
use distributed_point_functi.Base.{
  add_int, ℕ, ◌+◌, ◌-◌, ◌%◌, ◌^◌, ◌≡◌, refl, List, [], ◌∷◌, some, ok, arith, ltb, if◌then◌else◌,
}
use distributed_point_functi.Aes.{create_hash, hash_with}
use distributed_point_functi.Proto.{ValueType, integer_type, value_uint128}
use distributed_point_functi.Values.{Element, uint, number, add, default, is_uint, uint_supported}
use distributed_point_functi.Values.Convert.{to_value_type}
use distributed_point_functi.Validator.Types.{
  validate_integer_type, validate_value_type, bits_needed,
}
use distributed_point_functi.Validator.Create.{
  validate_one, validate_each, validate_parameters, with_default, get_default_security_parameter,
  tree_level_for, add_level, build_levels, create_validator,
}
use distributed_point_functi.Dpf.{Dpf}
use distributed_point_functi.Dpf.Create.{
  register_value_type_impl, default_functions, blocks_needed_for, create_incremental, prg_key_left,
  prg_key_right, prg_key_value,
}
use distributed_point_functi.Dcf.{
  Dcf, DcfKey, DcfParameters, create_dcf, create_from, dpf_parameters, generate_keys_from_object,
  evaluate_key,
}
use distributed_point_functi.Dcf.Zero.{uint_free}
use distributed_point_functi.Dcf.Shares.{generate_keys_from_object-shares, after_call}
use distributed_point_functi.Mic.{
  Mic, MicKey, MicParameters, Interval, create_gate, dcf_parameters, validate_mic_parameters,
  validate_intervals, gen, eval,
}
use distributed_point_functi.Mic.Intervals.{sums_mod, masked_indicators}
use distributed_point_functi.Mic.Shares.{gen-shares}
use distributed_point_functi.Tests.Create.{openssl, serialize, simple}
use distributed_point_functi.Tests.Setup.{cipher}
use distributed_point_functi.Tests.Doubles.{whole, whole-RoundsUp, log_up}

-- A DPF with a level of one point and a level of two.
abbrev dpf_of : ValueType → Dpf
dpf_of t = record {
  parameters =
      record { log_domain_size = 0; value_type = some t }
      ∷ record { log_domain_size = 1; value_type = some t }
      ∷ [];
  tree_levels_needed = 2;
  tree_to_hierarchy = (1, 1) ∷ (0, 0) ∷ [];
  hierarchy_to_tree = 0 ∷ 1 ∷ [];
  blocks_needed = 1 ∷ 1 ∷ [];
  prg_left = hash_with openssl prg_key_left;
  prg_right = hash_with openssl prg_key_right;
  prg_value = hash_with openssl prg_key_value;
  serialize = serialize;
  value_correction_functions =
      (128 ∷ [], uint 16)
      ∷ (64 ∷ [], uint 8)
      ∷ (32 ∷ [], uint 4)
      ∷ (16 ∷ [], uint 2)
      ∷ (8 ∷ [], uint 1)
      ∷ [];
}

abbrev dcf : Dcf
dcf = record { log_domain_size = 2; dpf = dpf_of (integer_type 64) }

abbrev parameters : DcfParameters ℕ
parameters = record {
  parameters = record {
    parameters = record { log_domain_size = 2; value_type = some (integer_type 64) };
    security_parameter = 0;
  };
}

creates_dcf : create_dcf openssl serialize parameters ≡ ok dcf
unfolding create_dcf create_from dpf_parameters create_incremental create_validator
    validate_parameters validate_each validate_one validate_value_type validate_integer_type
    with_default get_default_security_parameter build_levels bits_needed add_level tree_level_for
    log_up add_int blocks_needed_for create_hash default_functions register_value_type_impl
    to_value_type
creates_dcf = refl

to_64 : some (integer_type 64) ≡ some (to_value_type (uint 8))
unfolding to_value_type
to_64 = refl

generate_keys_from_object-shares_example :
    (key_0 key_1 : DcfKey) × (out_0 out_1 : Element) × (generate_keys_from_object dcf 1000 2000 2
        (uint 8)
        (number 42)
      ≡ (ok (key_0, key_1), after_call openssl serialize parameters (uint 8) dcf))
    × (evaluate_key (after_call openssl serialize parameters (uint 8) dcf) (uint 8) key_0 1
        ≡ ok out_0)
    × (evaluate_key (after_call openssl serialize parameters (uint 8) dcf) (uint 8) key_1 1
        ≡ ok out_1)
    × (add (uint 8) out_0 out_1 ≡ (if ltb 1 2 then number 42 else default (uint 8)))
generate_keys_from_object-shares_example =
    generate_keys_from_object-shares openssl serialize parameters (uint 8) dcf cipher (number 42) 2
      1 1000 2000 whole-RoundsUp (λ key. record { encrypts = λ xs. refl }) creates_dcf to_64
      (omega arith) uint_free simple uint_supported (is_uint (omega arith)) (omega arith)
      (omega arith)

abbrev intervals : List Interval
intervals =
    record {
      lower_bound = some (value_uint128 (record { high = 0; low = 1 }));
      upper_bound = some (value_uint128 (record { high = 0; low = 2 }));
    }
    ∷ []

abbrev mic_parameters : MicParameters
mic_parameters = record { log_group_size = 2; intervals = intervals }

abbrev gate : Mic
gate = record {
  mic_parameters = mic_parameters;
  dcf = record { log_domain_size = 2; dpf = dpf_of (integer_type 128) };
}

creates_gate : create_gate ℕ openssl serialize mic_parameters ≡ ok gate
unfolding create_gate validate_mic_parameters validate_intervals dcf_parameters create_dcf
    create_from dpf_parameters create_incremental create_validator validate_parameters validate_each
    validate_one validate_value_type validate_integer_type with_default
    get_default_security_parameter build_levels bits_needed add_level tree_level_for log_up add_int
    blocks_needed_for create_hash default_functions register_value_type_impl to_value_type
creates_gate = refl

-- The input 2 under the mask 3 is 1 modulo 4, and the output mask is 3.
gen-shares_example :
    (key_0 key_1 : MicKey) × (ys_0 ys_1 : List ℕ) × (gen gate 1000 2000 (7 ∷ []) 3 (3 ∷ [])
      ≡ ok (key_0, key_1))
    × (eval gate key_0 1 ≡ ok ys_0)
    × (eval gate key_1 1 ≡ ok ys_1)
    × (sums_mod (2 ^ 2) ys_0 ys_1
        ≡ masked_indicators (2 ^ 2) ((1 + 2 ^ 2 - 3) % 2 ^ 2) intervals (3 ∷ []))
gen-shares_example =
    gen-shares ℕ openssl serialize mic_parameters gate cipher 1000 2000 3 1 (3 ∷ []) (7 ∷ [])
      whole-RoundsUp (λ key. record { encrypts = λ xs. refl }) creates_gate refl refl (omega arith)
      (omega arith, tt) (omega arith)
