-- ===== src/Dpf/Correct/Leaves.antt =====
-- Every point of a hierarchy level, from the tree's invariant and the level's value correction: the
-- parties' outputs add up to beta at alpha's prefix, and to zero elsewhere.
use native.Mathlib.Decide.{ℕ_discrete}
use distributed_point_functi.Base.{
  ℕ, ◌-◌, ◌/◌, ◌%◌, ◌^◌, ◌<◌, ◌≡◌, ◌≢◌, sym, ap, ◌∙◌, subst, List, [], ◌∷◌, ◌==◌, if◌then◌else◌,
  ok-injective, All,
}
use distributed_point_functi.Aes.Hash.{Prg}
use distributed_point_functi.Proto.{CorrectionWord, Value}
use distributed_point_functi.EvaluatePrg.{Lane}
use distributed_point_functi.Values.{ElementType, Element, default}
use distributed_point_functi.Values.Correction.{corrections_of, add_at}
use distributed_point_functi.Dpf.{Dpf, last_log_domain_size, log_domain_size, tree_level, blocks}
use distributed_point_functi.Dpf.Generate.{alpha_prefix}
use distributed_point_functi.Dpf.Evaluate.{tree_index, block_index}
use distributed_point_functi.Dpf.Tree.Invariant.{node_0, node_1, alpha_at, SharesAt}
use distributed_point_functi.Dpf.Correct.Block.{elements_of, Parts}
use distributed_point_functi.Dpf.Correct.Point.{on_leaf, off_leaf}
use distributed_point_functi.Dpf.Correct.Points.{SharesPoint}
use distributed_point_functi.Dpf.Correct.Level.{
  IsLevel, tree_index_lem, block_index_lem, alpha_prefix_lem, prefix_leaf, leaf_below, index_below,
}

module _ (d : Dpf) (l : Prg d.prg_left) (r : Prg d.prg_right) (v : Prg d.prg_value)
    (t : ElementType) (h : ℕ) where
  module _ (level : IsLevel d t h) (alpha seed_0 seed_1 : ℕ) (small : alpha < 2 ^ 128)
      (us : List CorrectionWord)
      (shares : SharesAt l.block r.block
        (last_log_domain_size d)
        alpha
        seed_0
        seed_1
        us
        (tree_level d h)) where
    abbrev n : ℕ
    n = last_log_domain_size d

    abbrev m : ℕ
    m = log_domain_size d h - tree_level d h

    abbrev pub prefix : ℕ
    prefix = alpha_prefix d h alpha

    -- Alpha's leaf, and the leaf of a point.
    abbrev pub path_0 : Lane
    path_0 =
        node_0 l.block r.block n alpha seed_0 seed_1 us
          (alpha_at l.block r.block n alpha seed_0 seed_1 (tree_level d h))

    abbrev pub path_1 : Lane
    path_1 =
        node_1 l.block r.block n alpha seed_0 seed_1 us
          (alpha_at l.block r.block n alpha seed_0 seed_1 (tree_level d h))

    abbrev pub leaf_0 : ℕ → Lane
    leaf_0 x = node_0 l.block r.block n alpha seed_0 seed_1 us (tree_index d t h x)

    abbrev pub leaf_1 : ℕ → Lane
    leaf_1 x = node_1 l.block r.block n alpha seed_0 seed_1 us (tree_index d t h x)

    prefix_node : prefix / 2 ^ m ≡ alpha_at l.block r.block n alpha seed_0 seed_1 (tree_level d h)
    prefix_node =
        ap (λ a. a / 2 ^ m) (alpha_prefix_lem d t h level alpha small)
        ∙ prefix_leaf d t h level alpha

    module _ (beta : Value) (values : List Value)
        (parts : Parts v.block t
          (blocks d h)
          path_0.seed
          path_1.seed
          (prefix % 2 ^ m)
          beta
          path_1.control_bit
          values) where
      abbrev pub words : List Element
      words =
          corrections_of t path_1.control_bit parts.ints_a
            (add_at t (prefix % 2 ^ m) parts.beta_t parts.ints_b)

      abbrev pub expected : ℕ → Element
      expected x = if x == prefix then parts.beta_t else default t

      at_leaf :
          (x : ℕ)
          → x / 2 ^ m ≡ prefix / 2 ^ m
          → SharesPoint v.block t (blocks d h) words leaf_0 leaf_1 (block_index d t h) expected x
      at_leaf x e es_0 es_1 f g =
          let here : tree_index d t h x
              ≡ alpha_at l.block r.block n alpha seed_0 seed_1 (tree_level d h) =
            tree_index_lem d t h level x ∙ e ∙ prefix_node in
          let same_0 : es_0 ≡ parts.ints_a = ok-injective (
            sym f
            ∙ ap
                (λ p.
                  elements_of v.block t (blocks d h)
                    (node_0 l.block r.block n alpha seed_0 seed_1 us p).seed)
                here
            ∙ parts.expands_a) in
          let same_1 : es_1 ≡ parts.ints_b = ok-injective (
            sym g
            ∙ ap
                (λ p.
                  elements_of v.block t (blocks d h)
                    (node_1 l.block r.block n alpha seed_0 seed_1 us p).seed)
                here
            ∙ parts.expands_b) in
          rw (here, block_index_lem d t h level x, same_0, same_1)
            (on_leaf v.block t (blocks d h) m prefix x path_0 path_1 path_0 path_1 beta values
              level.supported parts shares.differ (index_below d t h level x) e)

      elsewhere :
          (x : ℕ)
          → x < 2 ^ log_domain_size d h
          → x / 2 ^ m ≢ prefix / 2 ^ m
          → SharesPoint v.block t (blocks d h) words leaf_0 leaf_1 (block_index d t h) expected x
      elsewhere x below ne es_0 es_1 f g =
          let off : leaf_0 x ≡ leaf_1 x =
            shares.off_path (tree_index d t h x)
              (subst (λ p. p < 2 ^ tree_level d h) (sym (tree_index_lem d t h level x))
                (leaf_below d t h level x below))
              (λ e. ne (sym (tree_index_lem d t h level x) ∙ e ∙ sym prefix_node)) in
          let same : es_1 ≡ es_0 =
            ok-injective (
              sym g ∙ ap (λ (n : Lane). elements_of v.block t (blocks d h) n.seed) (sym off) ∙ f) in
          rw (block_index_lem d t h level x, same)
            (off_leaf v.block t (blocks d h) m prefix x path_0 path_1 (leaf_0 x) (leaf_1 x) beta
              values level.supported parts es_0 f off (index_below d t h level x) ne)

      pub every_point :
          (xs : List ℕ)
          → All (λ x. x < 2 ^ log_domain_size d h) xs
          → All
              (SharesPoint v.block t (blocks d h) words leaf_0 leaf_1 (block_index d t h) expected)
              xs
      every_point [] below = tt
      every_point (x ∷ xs) below = (
        elim (ℕ_discrete (x / 2 ^ m) (prefix / 2 ^ m)) [
          | yes e ↦ at_leaf x e
          | no ne ↦ elsewhere x below.0 ne
        ],
        every_point xs below.1,
      )
