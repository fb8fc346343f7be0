-- ===== src/Validator/Create.antt =====
-- The construction of a ProtoValidator (dpf/internal/proto_validator.cc): `ValidateParameters` and
-- `Create`, which maps hierarchy levels to levels of the evaluation tree.
use Prim.Native.Nat.{min, max}
use distributed_point_functi.Base.{
  ℕ, suc, ◌+◌, ◌-◌, true, not, ◌&&◌, ◌||◌, List, [], ◌∷◌, ◌++◌, map, Option, none, some, Status, ok,
  err, invalid_argument, crash, ◌>>=◌, ◌>>◌, guard, int_limit, ltb, leb, if◌then◌else◌,
}
use distributed_point_functi.Proto.{ValueType, DpfParameters, get_or_type}
use distributed_point_functi.Security.{Double}
use distributed_point_functi.Validator.{is_empty}
use distributed_point_functi.Validator.Types.{validate_value_type, bits_needed}

-- The message DpfParameters with its `security_parameter`.
pub record SecuredParameters {ℓ} (W : Type ℓ) : Type ℓ where
  pub parameters : DpfParameters
  pub security_parameter : W

pub record ProtoValidator {ℓ} (W : Type ℓ) : Type ℓ where
  pub parameters : List (SecuredParameters W)
  pub tree_levels_needed : ℕ
  pub tree_to_hierarchy : List (ℕ × ℕ)
  pub hierarchy_to_tree : List ℕ

-- `tree_levels_needed`, `tree_to_hierarchy` and `hierarchy_to_tree`, as the loop of `Create` builds
-- them. The map is a list, in which the newest entry for a key counts.
pub record Levels : Type 0 where
  pub tree_levels_needed : ℕ
  pub tree_to_hierarchy : List (ℕ × ℕ)
  pub hierarchy_to_tree : List ℕ

abbrev pub no_levels : Levels
no_levels = record { tree_levels_needed = 0; tree_to_hierarchy = []; hierarchy_to_tree = [] }

abbrev pub validate_optional_type : Option ValueType → Status (Unit {0})
validate_optional_type none = err invalid_argument
validate_optional_type (some t) = validate_value_type t

module _ {ℓ} {W : Type ℓ} ⦃double : Double W⦄ where
  -- `GetDefaultSecurityParameter`; 40 is kDefaultSecurityParameter.
  unfoldable pub get_default_security_parameter : SecuredParameters W → W
  get_default_security_parameter p =
      double.plus (double.of_int 40) (double.of_int p.parameters.log_domain_size)

  -- The body of the loop of `ValidateParameters`, after the first element with the domain size
  -- before it.
  unfoldable pub validate_one : Option ℕ → SecuredParameters W → Status (Unit {0})
  validate_one previous p = do
    guard (leb p.parameters.log_domain_size 128) invalid_argument
    guard (elim previous [ none ↦ true | some size ↦ ltb size p.parameters.log_domain_size ])
        invalid_argument
    validate_optional_type p.parameters.value_type
    guard (not (double.is_nan p.security_parameter)) invalid_argument
    guard
        (not (
          double.lt p.security_parameter (double.of_int 0)
          || double.lt (double.of_int 128) p.security_parameter))
        invalid_argument

  unfoldable pub validate_each : Option ℕ → List (SecuredParameters W) → Status (Unit {0})
  unfolding validate_one
  validate_each previous [] = ok tt
  validate_each previous (p ∷ ps) = do
    validate_one previous p
    validate_each (some p.parameters.log_domain_size) ps

  -- `ValidateParameters`.
  unfoldable pub validate_parameters : List (SecuredParameters W) → Status (Unit {0})
  unfolding validate_each
  validate_parameters parameters = do
    guard (not (is_empty parameters)) invalid_argument
    validate_each none parameters

  -- The default value of `security_parameter`.
  unfoldable pub with_default : SecuredParameters W → SecuredParameters W
  unfolding get_default_security_parameter
  with_default p = record {
    parameters = p.parameters;
    security_parameter =
        if double.eq p.security_parameter (double.of_int 0)
        then get_default_security_parameter p
        else p.security_parameter;
  }

  -- The tree level of a hierarchy level, for a positive number of bits. A difference below zero is not above `tree_levels_needed`.
  unfoldable pub tree_level_for : ℕ → SecuredParameters W → ℕ → ℕ
  tree_level_for tree_levels_needed p bits =
      let log_bits_needed = double.ceil_int (double.log2 (double.of_int bits)) in
      max tree_levels_needed (p.parameters.log_domain_size + min log_bits_needed 7 - 7)

  -- The second part of the loop of `Create`: the maps get the tree level of hierarchy level i.
  unfoldable pub add_level : ℕ → SecuredParameters W → ℕ → Levels → Levels
  unfolding tree_level_for
  add_level i p bits levels =
      let tree_level = tree_level_for levels.tree_levels_needed p bits in
      record {
        tree_levels_needed = max levels.tree_levels_needed (tree_level + 1);
        tree_to_hierarchy = (tree_level, i) ∷ levels.tree_to_hierarchy;
        hierarchy_to_tree = levels.hierarchy_to_tree ++ tree_level ∷ [];
      }

  -- The bits that the values of a level need.
  abbrev pub bits_of_parameters : SecuredParameters W → Status ℕ
  bits_of_parameters p = bits_needed (get_or_type p.parameters.value_type) p.security_parameter

  -- The loop of `Create` over the hierarchy levels, from level i. The logarithm of 0 bits, as of an
  -- empty tuple, or of a negative int has no conversion to an int.
  unfoldable pub build_levels : ℕ → List (SecuredParameters W) → Levels → Status Levels
  build_levels i [] levels = ok levels
  build_levels i (p ∷ ps) levels = do
    bits ← bits_of_parameters p
    guard (ltb 0 bits && ltb bits int_limit) crash
    build_levels (suc i) ps (add_level i p bits levels)

  -- `ProtoValidator::Create`.
  unfoldable pub create_validator : List (SecuredParameters W) → Status (ProtoValidator W)
  create_validator parameters_in = do
    validate_parameters parameters_in
    let parameters = map with_default parameters_in
    levels ← build_levels 0 parameters no_levels
    ok (record {
      parameters = parameters;
      tree_levels_needed = levels.tree_levels_needed;
      tree_to_hierarchy = levels.tree_to_hierarchy;
      hierarchy_to_tree = levels.hierarchy_to_tree;
    })
