-- ===== src/Dpf/Correct/Shares.antt =====
-- The correctness of the incremental DPF: both parties' outputs of `EvaluateAt` are shares of beta
-- at alpha's prefix, and of zero at every other point of the hierarchy level.
use distributed_point_functi.Base.{
  ℕ, ◌-◌, ◌/◌, ◌%◌, ◌^◌, ◌≤◌, ◌<◌, ◌≡◌, refl, sym, ap₂, ◌∙◌, subst, List, [], ◌∷◌, map, ok, ◌==◌,
  if◌then◌else◌, get_or, take, arith, ok-injective,
}
use distributed_point_functi.Aes.Hash.{Prg}
use distributed_point_functi.Proto.{CorrectionWord, Value, value_not_set, DpfKey}
use distributed_point_functi.Values.{ElementType, Element, default}
use distributed_point_functi.Values.Convert.{from_value}
use distributed_point_functi.Dpf.{
  Dpf, last_log_domain_size, log_domain_size, tree_level, blocks, domain_to_block_index,
}
use distributed_point_functi.Dpf.Generate.{alpha_prefix, key_of, generate_keys_incremental}
use distributed_point_functi.Dpf.Evaluate.{value_correction_at, block_index, evaluate_at}
use distributed_point_functi.Dpf.Tree.Invariant.{SharesAt}
use distributed_point_functi.Dpf.Correct.Block.{Parts, compute_value_correction-Parts}
use distributed_point_functi.Dpf.Correct.Points.{sums, correct_values-shares}
use distributed_point_functi.Dpf.Correct.Level.{IsLevel, inner, last, alpha_prefix_lem, in_domain}
use distributed_point_functi.Dpf.Correct.Keys.{
  Run, generate_keys_incremental-Run, stored_correction,
}
use distributed_point_functi.Dpf.Correct.Party.{corrected, evaluate_at-none, evaluate_at-corrected}
use distributed_point_functi.Dpf.Correct.Leaves.{path_0, path_1, leaf_0, leaf_1, words, every_point}

module _ (d : Dpf) (l : Prg d.prg_left) (r : Prg d.prg_right) (v : Prg d.prg_value)
    (t : ElementType) (h : ℕ) where
  module _ (level : IsLevel d t h) (alpha seed_0 seed_1 : ℕ) (small : alpha < 2 ^ 128)
      (beta : List Value) (key_0 key_1 : DpfKey)
      (run : Run d l r alpha beta seed_0 seed_1 key_0 key_1) where
    abbrev cut : List CorrectionWord
    cut = take (tree_level d h) run.st.words_0

    depth_fits : tree_level d h ≤ d.tree_levels_needed - 1
    depth_fits = elim level.place [
      | inner before above found ↦ omega arith
      | last here deep ↦ omega arith
    ]

    pub cut-SharesAt :
        SharesAt l.block r.block (last_log_domain_size d) alpha seed_0 seed_1 cut (tree_level d h)
    cut-SharesAt = run.tree.shares (tree_level d h) depth_fits

    pub parts :
        Parts v.block t
          (blocks d h)
          (path_0 d l r v t h level alpha seed_0 seed_1 small cut cut-SharesAt).seed
          (path_1 d l r v t h level alpha seed_0 seed_1 small cut cut-SharesAt).seed
          (alpha_prefix d h alpha % 2 ^ (log_domain_size d h - tree_level d h))
          (get_or beta h value_not_set)
          (path_1 d l r v t h level alpha seed_0 seed_1 small cut cut-SharesAt).control_bit
          (value_correction_at d (key_of 0 seed_0 run.st.words_0 run.values) h)
    unfolding domain_to_block_index
    parts =
        compute_value_correction-Parts d v t h _ _ (alpha_prefix d h alpha)
          (get_or beta h value_not_set) _ _ level.supported level.registered
          (stored_correction d l r alpha beta seed_0 seed_1 t h level small
            (key_of 0 seed_0 run.st.words_0 run.values) run.st run.values run.size run.tree
            run.last_correction run.corrections refl refl)

    abbrev corrections : List Element
    corrections =
        words d l r v t h level alpha seed_0 seed_1 small cut cut-SharesAt
          (get_or beta h value_not_set) _ parts

    both :
        (xs : List ℕ) {os_0 os_1 : List Element}
        → evaluate_at d t (key_of 0 seed_0 run.st.words_0 run.values) h xs ≡ ok os_0
        → evaluate_at d t (key_of 1 seed_1 run.st.words_0 run.values) h xs ≡ ok os_1
        → sums t os_0 os_1
          ≡ map (λ x. if x == alpha_prefix d h alpha then parts.beta_t else default t) xs
    unfolding value_correction_at
    both [] e0 e1 =
        ap₂ (sums t) (evaluate_at-none d l r v t h 0 seed_0 run.st.words_0 run.values e0)
          (evaluate_at-none d l r v t h 1 seed_1 run.st.words_0 run.values e1)
    both (x ∷ xs) {os_0} {os_1} e0 e1 =
        let (ints_0, inside, read_0, run_0) =
          evaluate_at-corrected d l r v t h 0 seed_0 run.st.words_0 run.values x xs e0 in
        let (ints_1, _, read_1, run_1) =
          evaluate_at-corrected d l r v t h 1 seed_1 run.st.words_0 run.values x xs e1 in
        correct_values-shares v.block t (blocks d h) corrections
          (leaf_0 d l r v t h level alpha seed_0 seed_1 small cut cut-SharesAt)
          (leaf_1 d l r v t h level alpha seed_0 seed_1 small cut cut-SharesAt) (block_index d t h)
          (λ x. if x == alpha_prefix d h alpha then parts.beta_t else default t) (x ∷ xs)
          (every_point d l r v t h level alpha seed_0 seed_1 small cut cut-SharesAt
            (get_or beta h value_not_set) _ parts (x ∷ xs) (in_domain d t h level (x ∷ xs) inside))
          (subst
            (λ ints.
              corrected d l r v t h 0 seed_0 run.st.words_0 run.values ints (x ∷ xs) ≡ ok os_0)
            (ok-injective (sym read_0 ∙ parts.reads_values)) run_0)
          (subst
            (λ ints.
              corrected d l r v t h 1 seed_1 run.st.words_0 run.values ints (x ∷ xs) ≡ ok os_1)
            (ok-injective (sym read_1 ∙ parts.reads_values)) run_1)

  -- Let the PRGs hash single blocks, alpha be below 2 ^ 128, and level h be set up consistently for a
  -- type t, with beta's h-th value readable as an object of t. If key generation returns two keys
  -- and `EvaluateAt` returns outputs for both of them at some points, then the outputs at x add up to
  -- that object if x is alpha without the lowest bits that the level does not have, and to zero
  -- otherwise, in the order of the points.
  pub evaluate_at-shares :
      (alpha seed_0 seed_1 : ℕ) (beta : List Value) (beta_t : Element) (points : List ℕ)
      (key_0 key_1 : DpfKey) (out_0 out_1 : List Element)
      → IsLevel d t h
      → alpha < 2 ^ 128
      → from_value t (get_or beta h value_not_set) ≡ ok beta_t
      → generate_keys_incremental d seed_0 seed_1 alpha beta ≡ ok (key_0, key_1)
      → evaluate_at d t key_0 h points ≡ ok out_0
      → evaluate_at d t key_1 h points ≡ ok out_1
      → sums t out_0 out_1
        ≡ map
            (λ x.
              if x == alpha / 2 ^ (last_log_domain_size d - log_domain_size d h)
              then beta_t
              else default t)
            points
  evaluate_at-shares alpha seed_0 seed_1 beta beta_t points key_0 key_1 out_0 out_1 level small
        reads generated e0 e1 =
      let run =
        generate_keys_incremental-Run d l r alpha beta seed_0 seed_1 key_0 key_1 level.bounded
          level.tree_fits small generated in
      let p = parts level alpha seed_0 seed_1 small beta key_0 key_1 run in
      both level alpha seed_0 seed_1 small beta key_0 key_1 run points
        (subst (λ k. evaluate_at d t k h points ≡ ok out_0) (sym run.on_key_0) e0)
        (subst (λ k. evaluate_at d t k h points ≡ ok out_1) (sym run.on_key_1) e1)
      ∙ ap₂ (λ a b. map (λ x. if x == a then b else default t) points)
          (alpha_prefix_lem d t h level alpha small) (ok-injective (sym p.reads_beta ∙ reads))
