-- ===== src/Dpf/Correct/Party.antt =====
-- One party's call of `EvaluateAt` that succeeded: every point is corrected at the leaf of its path.
use distributed_point_functi.Base.{
  ℕ, ◌≡◌, sym, true, not, List, [], ◌∷◌, map, Status, ok, ◌==◌, ltb, length, take, >>=-eq-ok,
  ok-injective, guard, guard-true, invalid_argument,
}
use distributed_point_functi.Aes.Hash.{Prg}
use distributed_point_functi.Proto.{CorrectionWord, Value, DpfKey, block-round_trip}
use distributed_point_functi.EvaluatePrg.{Lane}
use distributed_point_functi.Values.{ElementType, Element}
use distributed_point_functi.Values.Correction.{values_to_array}
use distributed_point_functi.Validator.{validate_dpf_key}
use distributed_point_functi.Dpf.{Dpf, log_domain_size, tree_level, blocks}
use distributed_point_functi.Dpf.Generate.{key_of}
use distributed_point_functi.Dpf.Evaluate.{
  all_in_domain, max_evaluation_point, value_correction_at, tree_index, block_index, hash_inputs,
  hash_expanded_seeds, correct_values, evaluate_at,
}
use distributed_point_functi.Dpf.Correct.Point.{ints}
use distributed_point_functi.Dpf.Correct.Points.{leaf, evaluate_seeds-leaves}

module _ (d : Dpf) (l : Prg d.prg_left) (r : Prg d.prg_right) (v : Prg d.prg_value)
    (t : ElementType) (h : ℕ) where
  -- One party's evaluation that succeeded, with the leaf of each point.
  module _ (party s : ℕ) (ws : List CorrectionWord) (last_values : List Value) where
    abbrev pub key : DpfKey
    key = key_of party s ws last_values

    abbrev pub leaf_of : ℕ → Lane
    leaf_of =
        leaf d l r (take (tree_level d h) ws) (record { seed = s; control_bit = not (party == 0) })
          (tree_index d t h)

    abbrev pub corrected : List Element → List ℕ → Status (List Element)
    corrected ints xs =
        correct_values t party (blocks d h) ints (map (block_index d t h) xs)
          (map (λ x. (leaf_of x).control_bit) xs)
          (map v.block (hash_inputs (blocks d h) (map (λ x. (leaf_of x).seed) xs)))

    pub evaluate_at-none : {os : List Element} → evaluate_at d t key h [] ≡ ok os → os ≡ []
    unfolding evaluate_at all_in_domain
    evaluate_at-none e =
        let (_, g0, e0) = >>=-eq-ok (guard (ltb h (length d.parameters)) invalid_argument) _ e in
        let (_, g2, e2) =
          >>=-eq-ok (validate_dpf_key d.hierarchy_to_tree d.tree_levels_needed key) _ e0 in
        sym (ok-injective e2)

    pub evaluate_at-corrected :
        (x : ℕ) (xs : List ℕ) {os : List Element}
        → evaluate_at d t key h (x ∷ xs) ≡ ok os
        → (ints : List Element) × (all_in_domain
              (max_evaluation_point (log_domain_size d h))
              (x ∷ xs)
            ≡ true)
          × (values_to_array t (value_correction_at d key h) ≡ ok ints)
          × (corrected ints (x ∷ xs) ≡ ok os)
    unfolding evaluate_at hash_expanded_seeds
    evaluate_at-corrected x xs e =
        let (_, g0, e0) = >>=-eq-ok (guard (ltb h (length d.parameters)) invalid_argument) _ e in
        let (_, g1, e1) =
          >>=-eq-ok
            (guard (all_in_domain (max_evaluation_point (log_domain_size d h)) (x ∷ xs))
              invalid_argument)
            _ e0 in
        let (_, g2, e2) =
          >>=-eq-ok (validate_dpf_key d.hierarchy_to_tree d.tree_levels_needed key) _ e1 in
        let (ints, g3, e3) = >>=-eq-ok (values_to_array t (value_correction_at d key h)) _ e2 in
        (
          ints,
          guard-true (all_in_domain (max_evaluation_point (log_domain_size d h)) (x ∷ xs)) _ g1,
          g3,
          rw
              (
                block-round_trip s,
                evaluate_seeds-leaves d l r (take (tree_level d h) ws)
                    (record { seed = s; control_bit = not (party == 0) }) (tree_index d t h)
                    (x ∷ xs),
                v.evaluates (hash_inputs (blocks d h) (map (λ y. (leaf_of y).seed) (x ∷ xs))),
              )
              at e3,
        )
