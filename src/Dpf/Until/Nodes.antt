-- ===== src/Dpf/Until/Nodes.antt =====
-- The nodes of a key's tree, and the partial evaluations of a context that consists of them.
use Prim.Native.Nat.{min}
use native.Mathlib.Decide.{dec_lt}
use mathlib.Core.List.{map-map, map-append}
use distributed_point_functi.Base.{
  guard, crash, ℕ, zero, suc, ◌+◌, ◌-◌, ◌/◌, ◌^◌, ◌≤◌, ◌≡◌, refl, sym, ap, ap₂, subst, Bool-cases,
  lt→ltb, le→ltb, take-add, length-drop, ◌++◌, le_of_test, inl, inr, ◌∙◌, true, List, [], ◌∷◌, map,
  ok, ◌>>=◌, if◌then◌else◌, length, take, drop, arith, ok-injective, >>=-eq-ok, length-map,
  length-take, All,
}
use distributed_point_functi.Aes.Hash.{Prg}
use distributed_point_functi.Proto.{DpfKey}
use distributed_point_functi.EvaluatePrg.{Lane}
use distributed_point_functi.EvaluatePrg.Walk.{walk}
use distributed_point_functi.EvaluatePrg.Resume.{walk-append}
use distributed_point_functi.Dpf.{Dpf, parse, tree_level, evaluate_seeds}
use distributed_point_functi.Dpf.Expand.{DpfExpansion}
use distributed_point_functi.Dpf.Context.{
  parse_partial_evaluations, select_prefixes, expansion_from, subspan, root_seed, root_control_bit,
  from_ctx, level_or_zero, has_tree_level, start_level, starting_points, with_partial_evaluations,
  partial_evaluations_for, compute_partial_evaluations,
}
use distributed_point_functi.Dpf.Correct.Points.{replicate-constant}
use distributed_point_functi.Validator.Context.{EvaluationContext}
use distributed_point_functi.Dpf.Until.Resume.{
  both_true, shifted, IsPartial, parse_partial_evaluations-All, select_prefixes-nodes, written-All,
  evaluate_seeds-along,
}

module _ (d : Dpf) (l : Prg d.prg_left) (r : Prg d.prg_right) (key : DpfKey)
    (fits : length key.correction_words ≤ 128) where
  abbrev root : Lane
  root = record { seed = root_seed key; control_bit = root_control_bit key }

  -- The node of the key at a level of the tree.
  abbrev pub node : ℕ → ℕ → Lane
  node level p = walk l.block r.block (map parse (take level key.correction_words)) p root

  node-zero : (p : ℕ) → node 0 p ≡ root
  unfolding walk
  node-zero p = refl

  from_root : (a p q : ℕ) → a ≡ 0 → node a p ≡ node a q
  unfolding walk
  from_root zero p q h = refl
  from_root (suc a) p q h = absurd (omega arith)

  parts :
      (a b : ℕ)
      → a ≤ b
      → map parse (take b key.correction_words)
        ≡ map parse (take a key.correction_words)
          ++ map parse (take (b - a) (drop a key.correction_words))
  parts a b below =
      ap (λ k. map parse (take k key.correction_words)) {x = b} {y = a + (b - a)} (omega arith)
      ∙ ap (map parse) (take-add a (b - a) key.correction_words)
      ∙ map-append parse (take a key.correction_words) (take (b - a) (drop a key.correction_words))

  length_parts :
      (a b : ℕ)
      → b ≤ length key.correction_words
      → length (map parse (take (b - a) (drop a key.correction_words))) ≡ b - a
  length_parts a b inside =
      length-map (take (b - a) (drop a key.correction_words)) parse
      ∙ length-take (b - a) (drop a key.correction_words)
      ∙ ap (min (b - a)) (length-drop a key.correction_words)
      ∙ omega arith

  length_first :
      (a : ℕ)
      → a ≤ length key.correction_words
      → length (map parse (take a key.correction_words)) ≡ a
  length_first a inside =
      length-map (take a key.correction_words) parse
      ∙ length-take a key.correction_words
      ∙ omega arith

  node-split :
      (a b p : ℕ)
      → a ≤ b
      → b ≤ length key.correction_words
      → walk l.block r.block
          (map parse (take (b - a) (drop a key.correction_words)))
          p
          (node a (p / 2 ^ (b - a)))
        ≡ node b p
  node-split a b p below inside =
      let first = map parse (take a key.correction_words) in
      let second = map parse (take (b - a) (drop a key.correction_words)) in
      sym (
        ap (λ cs. walk l.block r.block cs p root) (parts a b below)
        ∙ walk-append l.block r.block first second p root
            (omega (arith, length_first a (omega arith), length_parts a b inside))
        ∙ ap (λ k. walk l.block r.block second p (node a (p / 2 ^ k))) (length_parts a b inside))

  node-resume :
      (a b p : ℕ)
      → a ≤ b
      → b ≤ length key.correction_words
      → walk l.block r.block
          (map parse (take (b - a) (drop a key.correction_words)))
          p
          (node a (shifted (b - a) p))
        ≡ node b p
  node-resume a b p below inside = elim (dec_lt (b - a) 128) [
    | yes near ↦ rw (lt→ltb (b - a) 128 near) (node-split a b p below inside)
    | no far ↦ rw (le→ltb (b - a) 128 (omega arith)) (
        ap (walk l.block r.block (map parse (take (b - a) (drop a key.correction_words))) p)
          (from_root a 0 (p / 2 ^ (b - a)) (omega arith))
        ∙ node-split a b p below inside)
  ]

  module _ {ℓ} {W : Type ℓ} (ctx : EvaluationContext W) where
    -- The partial evaluations of a context are nodes of its key's tree.
    abbrev pub HasNodes : Type 0
    HasNodes =
        All (IsPartial (node (tree_level d (level_or_zero ctx.partial_evaluations_level))))
          ctx.partial_evaluations

    abbrev start : ℕ → ℕ → Lane
    start h p = node (start_level d h ctx) (shifted (tree_level d h - start_level d h ctx) p)

    selected-nodes :
        (a levels : ℕ) (ps : List ℕ) {partial : DpfExpansion}
        → All (IsPartial (node a)) ctx.partial_evaluations
        → (do
          m ← parse_partial_evaluations ctx.partial_evaluations []
          ns ← select_prefixes levels ps m
          ok (expansion_from ns))
          ≡ ok partial
        → partial ≡ expansion_from (map (λ p. node a (shifted levels p)) ps)
    selected-nodes a levels ps all e =
        let (m, e1, e2) = >>=-eq-ok (parse_partial_evaluations ctx.partial_evaluations []) _ e in
        let (ns, e3, e4) = >>=-eq-ok (select_prefixes levels ps m) _ e2 in
        sym (ok-injective e4)
        ∙ ap expansion_from (
            select_prefixes-nodes (node a) levels ps m
              (parse_partial_evaluations-All (node a) ctx.partial_evaluations [] all tt e1) e3)

    starting_points-nodes :
        (ps : List ℕ) (h : ℕ) {partial : DpfExpansion}
        → HasNodes
        → starting_points d key ps h ctx ≡ ok partial
        → (start_level d h ctx ≤ tree_level d h) × (partial ≡ expansion_from (map (start h) ps))
    unfolding starting_points walk
    starting_points-nodes ps h {partial} all e0 =
        let (_, _, e) =
          >>=-eq-ok (guard (has_tree_level d ctx.partial_evaluations_level) crash) _ e0 in
        elim (Bool-cases (from_ctx d h ctx)) [
          | inl resumed ↦
              let from : start_level d h ctx
                  ≡ tree_level d (level_or_zero ctx.partial_evaluations_level) =
                ap
                  (λ b. if b then tree_level d (level_or_zero ctx.partial_evaluations_level) else 0)
                  resumed in
              (
                rw resumed (le_of_test _ _ (both_true _ _ resumed)),
                subst
                    (λ s.
                      partial
                      ≡ expansion_from (map (λ p. node s (shifted (tree_level d h - s) p)) ps))
                    (sym from) (selected-nodes _ _ ps all (rw resumed at e)),
              )
          | inr fresh ↦
              let from : start_level d h ctx ≡ 0 =
                ap
                  (λ b. if b then tree_level d (level_or_zero ctx.partial_evaluations_level) else 0)
                  fresh in
              (
                rw fresh (omega arith),
                subst
                    (λ s.
                      partial
                      ≡ expansion_from (map (λ p. node s (shifted (tree_level d h - s) p)) ps))
                    (sym from)
                    (sym (ok-injective (rw fresh at e))
                      ∙ ap₂ (λ a b. record { seeds = a; control_bits = b })
                          (replicate-constant root.seed ps ∙ sym (map-map _ _ ps))
                          (replicate-constant root.control_bit ps ∙ sym (map-map _ _ ps))),
              )
        ]

    nodes-resumed {κ} :
        {A : Type κ} (field : Lane → A) (ps : List ℕ) (h : ℕ)
        → start_level d h ctx ≤ tree_level d h
        → tree_level d h ≤ length key.correction_words
        → map
            (λ p. field (
              walk l.block r.block
                (map parse (subspan key.correction_words (start_level d h ctx) (tree_level d h)))
                p
                (start h p)))
            ps
          ≡ map field (map (node (tree_level d h)) ps)
    nodes-resumed field [] h below deep = refl
    nodes-resumed field (p ∷ ps) h below deep =
        ap₂ ◌∷◌ (ap field (node-resume (start_level d h ctx) (tree_level d h) p below deep))
          (nodes-resumed field ps h below deep)

    -- What `ComputePartialEvaluations` writes to the context.
    abbrev pub written : List ℕ → ℕ → EvaluationContext W
    written ps h =
        with_partial_evaluations ctx
          (partial_evaluations_for ps (map (λ n. n.seed) (map (node (tree_level d h)) ps))
            (map (λ n. n.control_bit) (map (node (tree_level d h)) ps)))
          h

    pub compute_partial_evaluations-nodes :
        (ps : List ℕ) (h : ℕ) {partial : DpfExpansion}
        → tree_level d h ≤ length key.correction_words
        → HasNodes
        → starting_points d key ps h ctx ≡ ok partial
        → compute_partial_evaluations d key ps h true ctx
          ≡ ok (expansion_from (map (node (tree_level d h)) ps), written ps h)
    unfolding compute_partial_evaluations
    compute_partial_evaluations-nodes ps h {partial} deep all e =
        let (below, same) = starting_points-nodes ps h all e in
        rw
          (
            e,
            same,
            evaluate_seeds-along d l r (start h) ps
                (subspan key.correction_words (start_level d h ctx) (tree_level d h)),
            nodes-resumed (λ n. n.seed) ps h below deep,
            nodes-resumed (λ n. n.control_bit) ps h below deep,
          )
          refl

  -- What is written is nodes of the tree again.
  pub written-HasNodes {ℓ} :
      {W : Type ℓ} (ctx : EvaluationContext W) (ps : List ℕ) (h : ℕ) → HasNodes (written ctx ps h)
  written-HasNodes ctx ps h = written-All (node (tree_level d h)) ps

  -- Without correction words, the nodes stay where they are.
  pub evaluate_seeds-nodes :
      (level : ℕ) (ps : List ℕ)
      → evaluate_seeds d
          (map (λ n. n.seed) (map (node level) ps))
          (map (λ n. n.control_bit) (map (node level) ps))
          ps
          []
        ≡ ok (
          map (λ n. n.seed) (map (node level) ps),
          map (λ n. n.control_bit) (map (node level) ps),
        )
  unfolding walk
  evaluate_seeds-nodes level ps =
      evaluate_seeds-along d l r (node level) ps []
      ∙ ap₂ (λ a b. ok (a, b)) (sym (map-map _ _ ps)) (sym (map-map _ _ ps))
