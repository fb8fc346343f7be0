-- ===== src/Dpf/Until/Calls.antt =====
-- Sequences of calls of `EvaluateUntil` on one context: the context stays valid, and the hierarchy
-- levels go up.
use distributed_point_functi.Base.{
  ◌∙◌, ℕ, zero, suc, ◌+◌, ◌≤◌, ◌<◌, ◌≡◌, refl, ap, Bool, true, false, ◌||◌, List, Option, some,
  none, ok, ltb, leb, ◌==◌, length, arith, lt→ltb, >>=-eq-ok, lt_of_guard, le_of_guard, eq_of_guard,
  guard, guard-true, invalid_argument, inl, inr, ◌⊎◌, err≢ok,
}
use distributed_point_functi.Proto.{DpfKey}
use distributed_point_functi.Values.{ElementType, Element}
use distributed_point_functi.Values.Convert.{to_value_type}
use distributed_point_functi.Security.{Double}
use distributed_point_functi.Validator.{is_empty}
use distributed_point_functi.Validator.Types.{value_types_are_equal}
use distributed_point_functi.Validator.Create.{ProtoValidator}
use distributed_point_functi.Validator.Context.{
  EvaluationContext, levels_done, level_not_after, validate_evaluation_context,
  validate_optional_key, all_parameters_match,
}
use distributed_point_functi.Dpf.{Dpf, value_type}
use distributed_point_functi.Dpf.Context.{level_or_zero}
use distributed_point_functi.Dpf.Until.{with_key, check_until, expand_until, evaluate_until}
use distributed_point_functi.Dpf.Until.Steps.{level_or_zero_le, Keeps, Moves, expand_until-Moves}

module _ {ℓ} {W : Type ℓ} ⦃double : Double W⦄ (d : Dpf) (v : ProtoValidator W) where
  -- The calls that were made, and how many.
  pub data Calls : EvaluationContext W → ℕ → EvaluationContext W → Type ℓ where
    no_call : {ctx : EvaluationContext W} → Calls ctx 0 ctx
    call :
        {ctx ctx' ctx'' : EvaluationContext W} {n : ℕ} (t : ElementType) (h : ℕ) (prefixes : List ℕ)
        (outputs : List Element)
        → evaluate_until d v t h prefixes ctx ≡ ok (outputs, ctx')
        → Calls ctx' n ctx''
        → Calls ctx (suc n) ctx''

  with_key-Moves :
      (t : ElementType) (h : ℕ) (prefixes : List ℕ) (ctx : EvaluationContext W)
      (key : Option DpfKey) {r : List Element × EvaluationContext W}
      → with_key key (λ k. expand_until d t k h prefixes ctx) ≡ ok r
      → Moves ctx h r.1
  with_key-Moves t h prefixes ctx none e = absurd (err≢ok e)
  with_key-Moves t h prefixes ctx (some key) {r} e =
      (expand_until-Moves d t key h prefixes ctx).holds r e

  -- What a call that succeeded says.
  module _ (t : ElementType) (h : ℕ) (prefixes : List ℕ) (ctx ctx' : EvaluationContext W)
      (outputs : List Element)
      (called : evaluate_until d v t h prefixes ctx ≡ ok (outputs, ctx')) where
    check_passed : check_until d v t h prefixes ctx ≡ ok tt
    unfolding evaluate_until
    check_passed = let (_, e, _) = >>=-eq-ok (check_until d v t h prefixes ctx) _ called in e

    moves : Moves ctx h ctx'
    unfolding evaluate_until
    moves =
        let (_, _, e) = >>=-eq-ok (check_until d v t h prefixes ctx) _ called in
        with_key-Moves t h prefixes ctx ctx.key e

    valid_before : validate_evaluation_context v ctx ≡ ok tt
    unfolding check_until
    valid_before = let (_, e, _) = >>=-eq-ok (validate_evaluation_context v ctx) _ check_passed in e

    level_bounds : (levels_done ctx.previous_hierarchy_level ≤ h) × (h < length d.parameters)
    unfolding check_until
    level_bounds =
        let (_, _, e1) = >>=-eq-ok (validate_evaluation_context v ctx) _ check_passed in
        let (_, below, e2) =
          >>=-eq-ok (guard (ltb h (length d.parameters)) invalid_argument) _ e1 in
        let (equal, _, e3) =
          >>=-eq-ok (value_types_are_equal (to_value_type t) (value_type d h)) _ e2 in
        let (_, _, e4) = >>=-eq-ok (guard equal invalid_argument) _ e3 in
        let (_, above, _) =
          >>=-eq-ok (guard (leb (levels_done ctx.previous_hierarchy_level) h) invalid_argument) _
            e4 in
        (
          le_of_guard (levels_done ctx.previous_hierarchy_level) h invalid_argument above,
          lt_of_guard h (length d.parameters) invalid_argument below,
        )

    new_levels_done : levels_done ctx'.previous_hierarchy_level ≡ suc h
    new_levels_done = ap levels_done moves.1

  -- If a context is not past the last hierarchy level, then n successful calls of `EvaluateUntil` go
  -- up by n levels at least: there are at most as many calls as levels.
  pub Calls-bounded :
      (n : ℕ) (ctx ctx' : EvaluationContext W)
      → levels_done ctx.previous_hierarchy_level ≤ length d.parameters
      → Calls ctx n ctx'
      → n + levels_done ctx.previous_hierarchy_level ≤ length d.parameters
  Calls-bounded zero ctx ctx' h no_call = omega arith
  Calls-bounded (suc n) ctx ctx'' h (call {ctx'} t level prefixes outputs e rest) =
      let bounds = level_bounds t level prefixes ctx ctx' outputs e in
      let done = new_levels_done t level prefixes ctx ctx' outputs e in
      omega (arith, bounds.0, bounds.1, Calls-bounded n ctx' ctx'' (omega (arith, bounds.1)) rest)

  or_true : (a b : Bool) → (a || b) ≡ true → (a ≡ true) ⊎ (b ≡ true)
  or_true true b e = inl refl
  or_true false b e = inr e

  true_or : (a b : Bool) → b ≡ true → (a || b) ≡ true
  true_or true b e = refl
  true_or false b e = e

  level_not_after-later :
      (level previous : Option ℕ) (h : ℕ)
      → levels_done previous ≤ h
      → level_not_after level previous ≡ true
      → level_not_after level (some h) ≡ true
  level_not_after-later none previous h above e = refl
  level_not_after-later (some level) previous h above e = lt→ltb level (suc h) (
      omega (
        arith,
        above,
        lt_of_guard level (levels_done previous) invalid_argument
            (ap (λ b. guard b invalid_argument) e),
      ))

  -- The partial evaluations of the context are from a level that was evaluated.
  levels_fit :
      (h : ℕ) (ctx ctx' : EvaluationContext W)
      → Keeps ctx ctx'
      → levels_done ctx.previous_hierarchy_level ≤ h
      → (is_empty ctx.partial_evaluations
          || level_not_after ctx.partial_evaluations_level ctx.previous_hierarchy_level)
        ≡ true
      → (is_empty ctx'.partial_evaluations
          || level_not_after ctx'.partial_evaluations_level (some h))
        ≡ true
  levels_fit h ctx ctx' (_, _, inl (partials, level)) above e =
      elim (or_true (is_empty ctx.partial_evaluations)
        (level_not_after ctx.partial_evaluations_level ctx.previous_hierarchy_level) e) [
          | inl nothing ↦ rw (partials, nothing) refl
          | inr earlier ↦ true_or (is_empty ctx'.partial_evaluations) _ (
              ap (λ l. level_not_after l (some h)) level
              ∙ level_not_after-later ctx.partial_evaluations_level ctx.previous_hierarchy_level h
                  above earlier)
        ]
  levels_fit h ctx ctx' (_, _, inr level) above e = true_or (is_empty ctx'.partial_evaluations) _ (
      ap (λ l. level_not_after l (some h)) level
      ∙ lt→ltb (level_or_zero ctx.previous_hierarchy_level) (suc h)
          (omega (arith, above, level_or_zero_le ctx.previous_hierarchy_level)))

  validate-again :
      (h : ℕ) (ctx ctx' : EvaluationContext W)
      → Moves ctx h ctx'
      → levels_done ctx.previous_hierarchy_level ≤ h
      → suc h < length v.parameters
      → validate_evaluation_context v ctx ≡ ok tt
      → validate_evaluation_context v ctx' ≡ ok tt
  unfolding validate_evaluation_context
  validate-again h ctx ctx' (keeps, moved) above below e =
      let (_, e1, e2) =
        >>=-eq-ok (guard (length ctx.parameters == length v.parameters) invalid_argument) _ e in
      let (_, e3, e4) = >>=-eq-ok (all_parameters_match v.parameters ctx.parameters) _ e2 in
      let (_, e5, e6) =
        >>=-eq-ok (validate_optional_key v.hierarchy_to_tree v.tree_levels_needed ctx.key) _ e4 in
      let (_, e7, e8) =
        >>=-eq-ok
          (guard (ltb (levels_done ctx.previous_hierarchy_level) (length ctx.parameters))
            invalid_argument)
          _ e6 in
      let size = eq_of_guard (length ctx.parameters) (length v.parameters) invalid_argument e1 in
      let fit = levels_fit h ctx ctx' keeps above (
        guard-true
          (is_empty ctx.partial_evaluations
            || level_not_after ctx.partial_evaluations_level ctx.previous_hierarchy_level)
          invalid_argument e8) in
      rw
        (
          keeps.0,
          keeps.1,
          moved,
          e1,
          e3,
          e5,
          lt→ltb (suc h) (length ctx.parameters) (omega arith),
          fit,
        )
        refl

  -- Let the validator be of the object's parameters. If a call of `EvaluateUntil` for level h
  -- succeeds, and h is not the last level, then the context that it leaves behind passes the
  -- validation again, so that the next call does not refuse it.
  pub evaluate_until-validates :
      (t : ElementType) (h : ℕ) (prefixes : List ℕ) (ctx ctx' : EvaluationContext W)
      (outputs : List Element)
      → length v.parameters ≡ length d.parameters
      → suc h < length d.parameters
      → evaluate_until d v t h prefixes ctx ≡ ok (outputs, ctx')
      → validate_evaluation_context v ctx' ≡ ok tt
  evaluate_until-validates t h prefixes ctx ctx' outputs same below e =
      validate-again h ctx ctx' (moves t h prefixes ctx ctx' outputs e)
        (level_bounds t h prefixes ctx ctx' outputs e).0 (omega arith)
        (valid_before t h prefixes ctx ctx' outputs e)
