-- ===== src/Tests/Create.antt =====
-- The construction of a small DPF: one hierarchy level of four points with 64-bit values.
use distributed_point_functi.Base.{
  ℕ, zero, suc, ◌*◌, ◌^◌, ◌-◌, ◌≤◌, ◌<◌, ◌≡◌, refl, true, List, [], ◌∷◌, map, some, ok, length,
  arith, get_or, add_int, err, crash,
}
use distributed_point_functi.Aes.{OpenSsl, create_hash, hash_with}
use distributed_point_functi.Aes.Hash.{Prg, ecb-Prg}
use distributed_point_functi.Proto.{ValueType, integer_type, value_not_set, tuple_type, no_types}
use distributed_point_functi.Values.{ElementType, uint, number, uint_supported}
use distributed_point_functi.Values.Convert.{
  to_value_type, from_value, value_integer_to_uint128, uint128_to,
}
use distributed_point_functi.Values.Bytes.{
  can_be_converted_directly, total_bit_size, elements_per_block,
}
use distributed_point_functi.Values.Bytes.Enough.{bytes_read}
use distributed_point_functi.Validator.{validate_value, validate_integer_value}
use distributed_point_functi.Validator.Types.{
  validate_integer_type, validate_value_type, bits_needed, count_elements,
}
use distributed_point_functi.Validator.Create.{
  SecuredParameters, ProtoValidator, validate_one, validate_each, validate_parameters, with_default,
  get_default_security_parameter, tree_level_for, add_level, build_levels, create_validator,
}
use distributed_point_functi.Validator.Simple.{IsSimple, direct}
use distributed_point_functi.Dpf.Create.Room.{create_validator-elements, blocks_needed_for-fits}
use distributed_point_functi.Dpf.{Dpf, get_value_correction_function, find_function, same_bytes}
use distributed_point_functi.Dpf.Generate.{validate_betas}
use distributed_point_functi.Dpf.Create.{
  register_value_type_impl, register_value_type, default_functions, blocks_needed_for,
  create_incremental, prg_key_left, prg_key_right, prg_key_value,
}
use distributed_point_functi.Dpf.Create.Setup.{IsKnown}
use distributed_point_functi.Dpf.Create.Shares.{
  register_all, create_incremental-IsDpf, create_incremental-shares,
}
use distributed_point_functi.Dpf.Total.Evaluates.{AreShared, evaluate_at-total}
use distributed_point_functi.Tests.Setup.{cipher, beta}
use distributed_point_functi.Tests.Doubles.{whole, whole-RoundsUp, log_up}

abbrev pub openssl : OpenSsl
openssl = record {
  cipher_ctx_new = true;
  encrypt_init = λ key. 1;
  encrypt_update =
      λ key xs. record { openssl_status = 1; out = map (cipher key) xs; out_len = 16 * length xs };
}

-- Enough to tell the types apart that are registered here.
abbrev pub serialize : ValueType → List ℕ
serialize (integer_type bitsize) = bitsize ∷ []
serialize _ = []

abbrev pub ps : List (SecuredParameters ℕ)
ps =
    record {
      parameters = record { log_domain_size = 2; value_type = some (integer_type 64) };
      security_parameter = 0;
    }
    ∷ []

abbrev pub created : Dpf
created = record {
  parameters = record { log_domain_size = 2; value_type = some (integer_type 64) } ∷ [];
  tree_levels_needed = 2;
  tree_to_hierarchy = (1, 0) ∷ [];
  hierarchy_to_tree = 1 ∷ [];
  blocks_needed = 1 ∷ [];
  prg_left = hash_with openssl prg_key_left;
  prg_right = hash_with openssl prg_key_right;
  prg_value = hash_with openssl prg_key_value;
  serialize = serialize;
  value_correction_functions =
      (128 ∷ [], uint 16)
      ∷ (64 ∷ [], uint 8)
      ∷ (32 ∷ [], uint 4)
      ∷ (16 ∷ [], uint 2)
      ∷ (8 ∷ [], uint 1)
      ∷ [];
}

abbrev validator : ProtoValidator ℕ
validator = record {
  parameters =
      record {
        parameters = record { log_domain_size = 2; value_type = some (integer_type 64) };
        security_parameter = 42;
      }
      ∷ [];
  tree_levels_needed = 2;
  tree_to_hierarchy = (1, 0) ∷ [];
  hierarchy_to_tree = 1 ∷ [];
}

validates : create_validator ps ≡ ok validator
unfolding create_validator validate_parameters validate_each validate_one validate_value_type
    validate_integer_type with_default get_default_security_parameter build_levels bits_needed
    add_level tree_level_for log_up
validates = refl

pub creates : create_incremental openssl serialize ps ≡ ok created
unfolding create_incremental create_validator validate_parameters validate_each validate_one
    validate_value_type validate_integer_type with_default get_default_security_parameter
    build_levels bits_needed add_level tree_level_for log_up blocks_needed_for create_hash add_int
    default_functions register_value_type_impl to_value_type
creates = refl

abbrev types : ℕ → ElementType
types h = uint 8

pub simple : IsSimple (uint 8)
unfolding can_be_converted_directly total_bit_size
simple = direct refl (omega arith) (omega arith)

known : (h : ℕ) → h < length ps → IsKnown (register_all (uint 8 ∷ []) created) (types h) h
unfolding register_value_type register_value_type_impl to_value_type get_value_correction_function
    find_function same_bytes
known zero below = record {
  simple = simple;
  supported = uint_supported;
  typed = refl;
  registered = refl;
}
known (suc h) below = absurd (omega arith)

reads :
    (i : ℕ)
    → i < length (register_all (uint 8 ∷ []) created).parameters
    → from_value (types i) (get_or beta i value_not_set) ≡ ok (number 42)
unfolding register_value_type from_value value_integer_to_uint128 uint128_to
reads zero below = refl
reads (suc i) below = absurd (omega arith)

valid_beta : validate_betas (map (λ p. integer_type 64) ps) beta ≡ ok tt
unfolding validate_betas validate_value validate_integer_value value_integer_to_uint128
valid_beta = refl

create_incremental-shares_example :
    AreShared
      (register_all (uint 8 ∷ []) created)
      types
      2
      1000
      2000
      beta
      (number 42)
      0
      (0 ∷ 2 ∷ 3 ∷ [])
unfolding register_value_type
create_incremental-shares_example =
    create_incremental-shares openssl serialize ps (uint 8 ∷ []) types created cipher 2 1000 2000
      beta (λ h. number 42) 0 (0 ∷ 2 ∷ 3 ∷ []) whole-RoundsUp
      (λ key. record { encrypts = λ xs. refl }) creates known refl valid_beta reads (omega arith)
      (omega arith) (omega arith, (omega arith, (omega arith, tt)))

create_validator-elements_example : 2 ^ (2 - 1) ≤ elements_per_block (uint 8)
unfolding to_value_type
create_validator-elements_example =
    create_validator-elements (uint 8) simple whole-RoundsUp ps validator validates 0 (omega arith)
      refl

blocks_counted : blocks_needed_for ps ≡ ok (1 ∷ [])
unfolding blocks_needed_for bits_needed add_int
blocks_counted = refl

blocks_needed_for-fits_example : bytes_read (uint 8) ≤ 16 * 1
unfolding to_value_type
blocks_needed_for-fits_example =
    blocks_needed_for-fits (uint 8) simple ps (1 ∷ []) 0 blocks_counted (omega arith) refl

-- A tuple without elements passes the validation of value types, and has no logarithm of its bits.
no_elements :
    create_validator {W = ℕ} (
      record {
        parameters = record { log_domain_size = 2; value_type = some (tuple_type no_types) };
        security_parameter = 0;
      }
      ∷ [])
    ≡ err crash
unfolding create_validator validate_parameters validate_each validate_one validate_value_type
    with_default get_default_security_parameter build_levels bits_needed count_elements add_int
    log_up
no_elements = refl

abbrev registered : Dpf
registered = register_all (uint 8 ∷ []) created

hash_Prg : (key : ℕ) → Prg (hash_with openssl key)
hash_Prg key = ecb-Prg (hash_with openssl key) (cipher key) (record { encrypts = λ xs. refl })

evaluate_at-total_example :
    AreShared registered types 2 1000 2000 beta (number 42) 0 (0 ∷ 2 ∷ 3 ∷ [])
unfolding register_value_type
evaluate_at-total_example =
    evaluate_at-total registered (hash_Prg prg_key_left) (hash_Prg prg_key_right)
      (hash_Prg prg_key_value) types
      (create_incremental-IsDpf openssl serialize ps (uint 8 ∷ []) types created whole-RoundsUp
        creates known)
      2 1000 2000 beta (λ h. number 42) 0 (0 ∷ 2 ∷ 3 ∷ []) refl valid_beta reads (omega arith)
      (omega arith) (omega arith, (omega arith, (omega arith, tt)))
