-- ===== src/Validator/Context.antt =====
-- Evaluation contexts (dpf/distributed_point_function.proto) and their validation
-- (dpf/internal/proto_validator.cc).
use distributed_point_functi.Base.{
  ℕ, suc, Bool, ◌&&◌, ◌||◌, List, [], ◌∷◌, Option, none, some, Status, ok, err, invalid_argument,
  ◌>>=◌, ◌>>◌, guard, ltb, ◌==◌, not, length, if◌then◌else◌,
}
use distributed_point_functi.Proto.{DpfKey, PartialEvaluation, get_or_type}
use distributed_point_functi.Security.{Double}
use distributed_point_functi.Validator.{validate_dpf_key, is_empty}
use distributed_point_functi.Validator.Types.{value_types_are_equal}
use distributed_point_functi.Validator.Create.{
  SecuredParameters, ProtoValidator, get_default_security_parameter,
}

-- The message EvaluationContext. A `previous_hierarchy_level` of -1, for a context that was not
-- evaluated, is `none`, and so is a negative `partial_evaluations_level`, which is not refused.
pub record EvaluationContext {ℓ} (W : Type ℓ) : Type ℓ where
  pub parameters : List (SecuredParameters W)
  pub key : Option DpfKey
  pub previous_hierarchy_level : Option ℕ
  pub partial_evaluations : List PartialEvaluation
  pub partial_evaluations_level : Option ℕ

-- The number of the hierarchy levels up to the previous one.
abbrev pub levels_done : Option ℕ → ℕ
levels_done none = 0
levels_done (some h) = suc h

-- `partial_evaluations_level <= previous_hierarchy_level`.
abbrev pub level_not_after : Option ℕ → Option ℕ → Bool
level_not_after none previous = Bool.true
level_not_after (some level) previous = ltb level (levels_done previous)

unfoldable pub validate_optional_key : List ℕ → ℕ → Option DpfKey → Status (Unit {0})
validate_optional_key hierarchy_to_tree tree_levels_needed none = err invalid_argument
validate_optional_key hierarchy_to_tree tree_levels_needed (some key) =
    validate_dpf_key hierarchy_to_tree tree_levels_needed key

module _ {ℓ} {W : Type ℓ} ⦃double : Double W⦄ where
  unfoldable pub almost_equal : W → W → Bool
  almost_equal a b = double.le (double.abs (double.minus a b)) double.epsilon

  -- The three ways in which security parameters can be equivalent.
  unfoldable pub security_parameters_agree : SecuredParameters W → SecuredParameters W → Bool
  unfolding almost_equal get_default_security_parameter
  security_parameters_agree lhs rhs =
      almost_equal lhs.security_parameter rhs.security_parameter
      || (double.eq lhs.security_parameter (double.of_int 0)
          && almost_equal rhs.security_parameter (get_default_security_parameter rhs))
      || (double.eq rhs.security_parameter (double.of_int 0)
          && almost_equal lhs.security_parameter (get_default_security_parameter lhs))

  unfoldable pub parameters_are_equal : SecuredParameters W → SecuredParameters W → Status Bool
  unfolding security_parameters_agree
  parameters_are_equal lhs rhs =
      if not (lhs.parameters.log_domain_size == rhs.parameters.log_domain_size)
      then ok Bool.false
      else if not (security_parameters_agree lhs rhs)
      then ok Bool.false
      else value_types_are_equal (get_or_type lhs.parameters.value_type)
          (get_or_type rhs.parameters.value_type)

  -- The loop of `ValidateEvaluationContext` over the parameters.
  unfoldable pub all_parameters_match :
      List (SecuredParameters W) → List (SecuredParameters W) → Status (Unit {0})
  unfolding parameters_are_equal
  all_parameters_match (p ∷ ps) (q ∷ qs) = do
    equal ← parameters_are_equal p q
    guard equal invalid_argument
    all_parameters_match ps qs
  all_parameters_match _ _ = ok tt

  -- `ValidateEvaluationContext`.
  unfoldable pub validate_evaluation_context :
      ProtoValidator W → EvaluationContext W → Status (Unit {0})
  unfolding validate_optional_key all_parameters_match
  validate_evaluation_context v ctx = do
    guard (length ctx.parameters == length v.parameters) invalid_argument
    all_parameters_match v.parameters ctx.parameters
    validate_optional_key v.hierarchy_to_tree v.tree_levels_needed ctx.key
    guard (ltb (levels_done ctx.previous_hierarchy_level) (length ctx.parameters)) invalid_argument
    guard
        (is_empty ctx.partial_evaluations
          || level_not_after ctx.partial_evaluations_level ctx.previous_hierarchy_level)
        invalid_argument

  -- `CreateEvaluationContext`.
  unfoldable pub create_evaluation_context :
      ProtoValidator W → DpfKey → Status (EvaluationContext W)
  create_evaluation_context v key = do
    validate_dpf_key v.hierarchy_to_tree v.tree_levels_needed key
    ok (record {
      parameters = v.parameters;
      key = some key;
      previous_hierarchy_level = none;
      partial_evaluations = [];
      partial_evaluations_level = some 0;
    })
