-- ===== src/Dpf/Until/Steps.antt =====
-- An evaluation context as a state machine whose steps are the calls of `EvaluateUntil`.
use distributed_point_functi.Base.{
  ℕ, ◌-◌, ◌≤◌, ◌≡◌, refl, Bool, List, [], ◌∷◌, Option, some, none, ltb, length, arith, Ensures,
  >>=-Ensures, ok-Ensures, inl, inr, ◌⊎◌, ◌^◌,
}
use distributed_point_functi.Proto.{DpfKey}
use distributed_point_functi.Values.{ElementType}
use distributed_point_functi.Values.Correction.{values_to_array}
use distributed_point_functi.Security.{Double}
use distributed_point_functi.Validator.Context.{EvaluationContext, levels_done}
use distributed_point_functi.Dpf.{Dpf, log_domain_size, tree_level, blocks, evaluate_seeds}
use distributed_point_functi.Dpf.Evaluate.{hash_expanded_seeds, value_correction_at}
use distributed_point_functi.Dpf.Expand.{expand_seeds}
use distributed_point_functi.Dpf.Context.{
  starting_points, start_level, selected_partial_evaluations, words_between,
  compute_partial_evaluations, expand_and_update_context, level_or_zero, subspan,
}
use distributed_point_functi.Dpf.Until.{add_prefixes, no_prefixes, correct_expansion, expand_until}

pub level_or_zero_le : (o : Option ℕ) → level_or_zero o ≤ levels_done o
level_or_zero_le none = omega arith
level_or_zero_le (some h) = omega arith

module _ {ℓ} {W : Type ℓ} ⦃double : Double W⦄ where
  -- What a call leaves in a context: its parameters and key, and the partial evaluations from before
  -- or those for the level before.
  abbrev pub Keeps : EvaluationContext W → EvaluationContext W → Type ℓ
  Keeps ctx c =
      (c.parameters ≡ ctx.parameters)
      × (c.key ≡ ctx.key)
      × (((c.partial_evaluations ≡ ctx.partial_evaluations)
            × (c.partial_evaluations_level ≡ ctx.partial_evaluations_level))
          ⊎ (c.partial_evaluations_level ≡ some (level_or_zero ctx.previous_hierarchy_level)))

  compute_partial_evaluations-same :
      (d : Dpf) (key : DpfKey) (prefixes : List ℕ) (h : ℕ) (update : Bool)
      (ctx : EvaluationContext W)
      → Ensures
          (λ r.
            (r.1.parameters ≡ ctx.parameters)
            × (r.1.key ≡ ctx.key)
            × (r.1.partial_evaluations_level ≡ some h))
          (compute_partial_evaluations d key prefixes h update ctx)
  unfolding compute_partial_evaluations
  compute_partial_evaluations-same d key prefixes h update ctx =
      >>=-Ensures {first = starting_points d key prefixes h ctx} (λ partial _.
        >>=-Ensures
          {first = evaluate_seeds d partial.seeds partial.control_bits prefixes
            (subspan key.correction_words (start_level d h ctx) (tree_level d h))}
          (λ nodes _. ok-Ensures (refl, refl, refl)))

  selected-Keeps :
      (d : Dpf) (key : DpfKey) (h : ℕ) (prefixes : List ℕ) (ctx : EvaluationContext W)
      → Ensures (λ r. Keeps ctx r.1) (selected_partial_evaluations d key h prefixes ctx)
  unfolding selected_partial_evaluations
  selected-Keeps d key h [] ctx = ok-Ensures (refl, refl, inl (refl, refl))
  selected-Keeps d key h (p ∷ ps) ctx = record {
    holds = λ r e.
        let (parameters, same_key, level) =
          (compute_partial_evaluations-same d key (p ∷ ps)
              (level_or_zero ctx.previous_hierarchy_level) (ltb h (length d.parameters - 1))
              ctx).holds
            r e in
        (parameters, same_key, inr level);
  }

  abbrev pub Moves : EvaluationContext W → ℕ → EvaluationContext W → Type ℓ
  Moves ctx h c = Keeps ctx c × (c.previous_hierarchy_level ≡ some h)

  expand_and_update_context-Moves :
      (d : Dpf) (key : DpfKey) (h : ℕ) (prefixes : List ℕ) (ctx : EvaluationContext W)
      → Ensures (λ r. Moves ctx h r.1) (expand_and_update_context d key h prefixes ctx)
  unfolding expand_and_update_context
  expand_and_update_context-Moves d key h prefixes ctx =
      >>=-Ensures {first = selected_partial_evaluations d key h prefixes ctx} (λ r e.
        >>=-Ensures {first = expand_seeds d r.0 (words_between d key h prefixes ctx)}
          (λ expansion _. ok-Ensures ((selected-Keeps d key h prefixes ctx).holds r e, refl)))

  pub expand_until-Moves :
      (d : Dpf) (t : ElementType) (key : DpfKey) (h : ℕ) (prefixes : List ℕ)
      (ctx : EvaluationContext W)
      → Ensures (λ r. Moves ctx h r.1) (expand_until d t key h prefixes ctx)
  unfolding expand_until
  expand_until-Moves d t key h prefixes ctx =
      let previous = level_or_zero ctx.previous_hierarchy_level in
      let indices = (add_prefixes d previous prefixes no_prefixes).tree_indices in
      >>=-Ensures {first = expand_and_update_context d key h indices ctx} (λ r e.
        >>=-Ensures {first = hash_expanded_seeds d h r.0.seeds} (λ hashed _.
          >>=-Ensures {first = values_to_array t (value_correction_at d key h)} (λ ints _.
            >>=-Ensures
              {first = correct_expansion t key.party (blocks d h) ints
                (2 ^ (log_domain_size d h - tree_level d h)) r.0.control_bits hashed}
              (λ outputs _.
                ok-Ensures ((expand_and_update_context-Moves d key h indices ctx).holds r e)))))
