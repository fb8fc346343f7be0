-- ===== src/Dpf/Create.antt =====
-- Construction of a DPF (dpf/distributed_point_function.h and .cc): `CreateIncremental`, and the
-- registration of value types.
pub mod Room
pub mod Setup
pub mod Shares
use distributed_point_functi.Base.{
  ℕ, ◌+◌, ◌/◌, List, [], ◌∷◌, map, Status, ok, ◌>>=◌, make_uint128, add_int,
}
use distributed_point_functi.Aes.{OpenSsl, create_hash}
use distributed_point_functi.Proto.{ValueType}
use distributed_point_functi.Values.{ElementType, uint}
use distributed_point_functi.Values.Convert.{to_value_type}
use distributed_point_functi.Security.{Double}
use distributed_point_functi.Validator.Create.{
  SecuredParameters, create_validator, bits_of_parameters,
}
use distributed_point_functi.Dpf.{Dpf}

-- The three keys of the PRGs.
abbrev pub prg_key_left : ℕ
prg_key_left = make_uint128 6620352805685181925 10619216138589348605

abbrev pub prg_key_right : ℕ
prg_key_right = make_uint128 17263624133795316332 16350916448189631755

abbrev pub prg_key_value : ℕ
prg_key_value = make_uint128 406961519588549603 5089930702839684248

-- `RegisterValueTypeImpl<T>`: the newest entry of the map for a key counts.
unfoldable pub register_value_type_impl :
    (ValueType → List ℕ) → ElementType → List (List ℕ × ElementType) → List (List ℕ × ElementType)
register_value_type_impl serialize t functions = (serialize (to_value_type t), t) ∷ functions

-- `RegisterValueType<T>` on an object.
unfoldable pub register_value_type : ElementType → Dpf → Dpf
unfolding register_value_type_impl
register_value_type t d = record {
  parameters = d.parameters;
  tree_levels_needed = d.tree_levels_needed;
  tree_to_hierarchy = d.tree_to_hierarchy;
  hierarchy_to_tree = d.hierarchy_to_tree;
  blocks_needed = d.blocks_needed;
  prg_left = d.prg_left;
  prg_right = d.prg_right;
  prg_value = d.prg_value;
  serialize = d.serialize;
  value_correction_functions = register_value_type_impl d.serialize t d.value_correction_functions;
}

-- The types that every object knows: all single unsigned integers.
unfoldable pub default_functions : (ValueType → List ℕ) → List (List ℕ × ElementType)
unfolding register_value_type_impl
default_functions serialize = register_value_type_impl serialize (uint 16) (
    register_value_type_impl serialize (uint 8) (
      register_value_type_impl serialize (uint 4) (
        register_value_type_impl serialize (uint 2)
          (register_value_type_impl serialize (uint 1) []))))

module _ {ℓ} {W : Type ℓ} ⦃double : Double W⦄ where
  -- `blocks_needed`, from the parameters as they were passed. The bits are positive, since `Create` of
  -- the validator has seen the same types before.
  unfoldable pub blocks_needed_for : List (SecuredParameters W) → Status (List ℕ)
  blocks_needed_for [] = ok []
  blocks_needed_for (p ∷ ps) = do
    bits ← bits_of_parameters p
    padded ← add_int bits 127
    rest ← blocks_needed_for ps
    ok (padded / 128 ∷ rest)

  -- `CreateIncremental(parameters)`.
  unfoldable pub create_incremental :
      OpenSsl → (ValueType → List ℕ) → List (SecuredParameters W) → Status Dpf
  create_incremental openssl serialize parameters = do
    proto_validator ← create_validator parameters
    blocks_needed ← blocks_needed_for parameters
    prg_left ← create_hash openssl prg_key_left
    prg_right ← create_hash openssl prg_key_right
    prg_value ← create_hash openssl prg_key_value
    ok (record {
      parameters = map (λ p. p.parameters) proto_validator.parameters;
      tree_levels_needed = proto_validator.tree_levels_needed;
      tree_to_hierarchy = proto_validator.tree_to_hierarchy;
      hierarchy_to_tree = proto_validator.hierarchy_to_tree;
      blocks_needed = blocks_needed;
      prg_left = prg_left;
      prg_right = prg_right;
      prg_value = prg_value;
      serialize = serialize;
      value_correction_functions = default_functions serialize;
    })

  -- `Create(parameters)`.
  unfoldable pub create : OpenSsl → (ValueType → List ℕ) → SecuredParameters W → Status Dpf
  unfolding create_incremental
  create openssl serialize parameters = create_incremental openssl serialize (parameters ∷ [])
