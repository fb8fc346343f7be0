-- ===== src/Dpf/Until/At.antt =====
-- `EvaluateAt` with a context goes on from the partial evaluations of the context, and without one
-- from the root.
use mathlib.Core.List.{map-map}
use distributed_point_functi.Base.{
  ℕ, ◌≤◌, ◌≡◌, refl, ap₂, sym, ◌∙◌, List, [], ◌∷◌, map, ok, ◌>>=◌, guard, length, ltb,
  invalid_argument, replicate, take, if◌then◌else◌, >>=-through,
}
use distributed_point_functi.Aes.Hash.{Prg}
use distributed_point_functi.Proto.{DpfKey}
use distributed_point_functi.Values.{ElementType}
use distributed_point_functi.Values.Correction.{values_to_array}
use distributed_point_functi.Security.{Double}
use distributed_point_functi.Validator.{validate_dpf_key, is_empty}
use distributed_point_functi.Validator.Context.{EvaluationContext}
use distributed_point_functi.Dpf.{Dpf, tree_level, log_domain_size, evaluate_seeds}
use distributed_point_functi.Dpf.Evaluate.{
  evaluate_at, tree_index, all_in_domain, max_evaluation_point, value_correction_at,
  hash_expanded_seeds,
}
use distributed_point_functi.Dpf.Expand.{DpfExpansion}
use distributed_point_functi.Dpf.Context.{
  starting_points, with_previous_level, root_seed, root_control_bit,
}
use distributed_point_functi.Dpf.Correct.Points.{evaluate_seeds-leaves}
use distributed_point_functi.Dpf.Until.{evaluate_at_with_context}
use distributed_point_functi.Dpf.Until.Nodes.{
  node, HasNodes, written, compute_partial_evaluations-nodes, written-HasNodes,
  evaluate_seeds-nodes,
}

module _ {ℓ} {W : Type ℓ} (d : Dpf) (l : Prg d.prg_left) (r : Prg d.prg_right) (key : DpfKey)
    (fits : length key.correction_words ≤ 128) (t : ElementType) (h : ℕ)
    (deep : tree_level d h ≤ length key.correction_words) (ctx : EvaluationContext W)
    ⦃double : Double W⦄ where
  -- The context after the call.
  abbrev pub context_after : List ℕ → EvaluationContext W
  context_after points =
      if is_empty points
      then ctx
      else with_previous_level (written d l r key fits ctx (map (tree_index d t h) points) h) h

  leaves_lem :
      (points : List ℕ)
      → evaluate_seeds d
          (replicate (length points) (root_seed key))
          (replicate (length points) (root_control_bit key))
          (map (tree_index d t h) points)
          (take (tree_level d h) key.correction_words)
        ≡ ok (
          map
              (λ n. n.seed)
              (map (node d l r key fits (tree_level d h)) (map (tree_index d t h) points)),
          map
              (λ n. n.control_bit)
              (map (node d l r key fits (tree_level d h)) (map (tree_index d t h) points)),
        )
  leaves_lem points =
      evaluate_seeds-leaves d l r (take (tree_level d h) key.correction_words)
        (record { seed = root_seed key; control_bit = root_control_bit key }) (tree_index d t h)
        points
      ∙ ap₂ (λ a b. ok (a, b))
          (sym (map-map _ _ (map (tree_index d t h) points) ∙ map-map _ _ points))
          (sym (map-map _ _ (map (tree_index d t h) points) ∙ map-map _ _ points))

  evaluate_at_with_context-evaluate_at :
      (points : List ℕ) {partial : DpfExpansion}
      → HasNodes d l r key fits ctx
      → starting_points d key (map (tree_index d t h) points) h ctx ≡ ok partial
      → evaluate_at_with_context d t key h points ctx
        ≡ (evaluate_at d t key h points >>= (λ outputs. ok (outputs, context_after points)))
  unfolding evaluate_at evaluate_at_with_context
  evaluate_at_with_context-evaluate_at [] all e =
      >>=-through (guard (ltb h (length d.parameters)) invalid_argument) _ _ (λ _ _.
        >>=-through
          (guard (all_in_domain (max_evaluation_point (log_domain_size d h)) []) invalid_argument) _
          _
          (λ _ _.
            >>=-through (validate_dpf_key d.hierarchy_to_tree d.tree_levels_needed key) _ _
              (λ _ _. refl)))
  evaluate_at_with_context-evaluate_at (x ∷ xs) all e =
      let points = x ∷ xs in
      >>=-through (guard (ltb h (length d.parameters)) invalid_argument) _ _ (λ _ _.
        >>=-through
          (guard (all_in_domain (max_evaluation_point (log_domain_size d h)) (x ∷ xs))
            invalid_argument)
          _ _
          (λ _ _.
            >>=-through (validate_dpf_key d.hierarchy_to_tree d.tree_levels_needed key) _ _ (λ _ _.
              >>=-through (values_to_array t (value_correction_at d key h)) _ _ (λ ints _.
                rw
                  (
                    compute_partial_evaluations-nodes d l r key fits ctx
                        (map (tree_index d t h) (x ∷ xs)) h deep all e,
                    evaluate_seeds-nodes d l r key fits (tree_level d h)
                        (map (tree_index d t h) (x ∷ xs)),
                    leaves_lem (x ∷ xs),
                  )
                  (>>=-through (hash_expanded_seeds d h _) _ _ (λ hashed _. refl))))))

  after-HasNodes :
      (points : List ℕ)
      → HasNodes d l r key fits ctx
      → HasNodes d l r key fits (context_after points)
  after-HasNodes [] all = all
  after-HasNodes (x ∷ xs) all =
      written-HasNodes d l r key fits ctx (map (tree_index d t h) (x ∷ xs)) h

  -- Let the PRGs hash single blocks, the key have at most 128 correction words and at least as many
  -- as the tree level of h, and the partial evaluations of the context, if any, be the nodes of the
  -- key's tree at their prefixes. If the context has what the points start from, then `EvaluateAt`
  -- with the context has the same outputs, or the same error, as without it. The context that it
  -- leaves behind consists of nodes of the key's tree again.
  pub evaluate_at_with_context_lem :
      (points : List ℕ) {partial : DpfExpansion}
      → HasNodes d l r key fits ctx
      → starting_points d key (map (tree_index d t h) points) h ctx ≡ ok partial
      → (evaluate_at_with_context d t key h points ctx
          ≡ (evaluate_at d t key h points >>= (λ outputs. ok (outputs, context_after points))))
        × HasNodes d l r key fits (context_after points)
  evaluate_at_with_context_lem points all e =
      (evaluate_at_with_context-evaluate_at points all e, after-HasNodes points all)
