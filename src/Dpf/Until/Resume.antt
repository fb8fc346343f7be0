-- ===== src/Dpf/Until/Resume.antt =====
-- Evaluation that goes on from the partial evaluations of a context, which are nodes of the tree.
use mathlib.Core.List.{map-map}
use distributed_point_functi.Base.{
  ℕ, suc, ◌/◌, ◌^◌, ◌≡◌, refl, sym, ap, ap₂, subst, some-injective, Bool-cases, eq_of_test, lt→==,
  if-same, inl, inr, err≢ok, ◌>>◌, ◌∙◌, Bool, true, false, ◌&&◌, ◌||◌, List, [], ◌∷◌, map, Option,
  none, some, ok, err, invalid_argument, guard, ltb, ◌==◌, if◌then◌else◌, length, arith,
  ok-injective, >>=-eq-ok, eq→==, length-map, All,
}
use distributed_point_functi.Aes.Hash.{Prg}
use distributed_point_functi.Proto.{
  CorrectionWord, PartialEvaluation, block_to_uint128, block-round_trip,
}
use distributed_point_functi.EvaluatePrg.{Lane}
use distributed_point_functi.EvaluatePrg.Walk.{walk}
use distributed_point_functi.EvaluatePrg.Loops.{
  Point, seeds_of, controls_of, paths_of, evaluate_seeds_no_hwy_lem,
}
use distributed_point_functi.Dpf.{Dpf, parse, evaluate_seeds}
use distributed_point_functi.Dpf.Context.{
  find_prefix, insert_prefix, same_lane, parse_partial_evaluations, select_prefixes,
  partial_evaluations_for,
}

pub both_true : (a b : Bool) → (a && b) ≡ true → b ≡ true
both_true true b e = e
both_true false b e = absurd (ground arith)

-- The prefix of an earlier level.
abbrev pub shifted : ℕ → ℕ → ℕ
shifted levels p = if ltb levels 128 then p / 2 ^ levels else 0

module _ (node : ℕ → Lane) where
  -- Every entry of a map is the node of its prefix.
  abbrev pub IsNode : ℕ × Lane → Type 0
  IsNode (prefix, n) = n ≡ node prefix

  find_prefix-node :
      (prefix : ℕ) (m : List (ℕ × Lane)) {n : Lane}
      → All IsNode m
      → find_prefix prefix m ≡ some n
      → n ≡ node prefix
  unfolding find_prefix
  find_prefix-node prefix [] h e = absurd (ground arith)
  find_prefix-node prefix ((p, n') ∷ m) h e = elim (Bool-cases (p == prefix)) [
    | inl same ↦ sym (some-injective (rw same at e)) ∙ h.0 ∙ ap node (eq_of_test p prefix same)
    | inr other ↦ find_prefix-node prefix m h.1 (rw other at e)
  ]

  abbrev pub IsPartial : PartialEvaluation → Type 0
  IsPartial e =
      record { seed = block_to_uint128 e.seed; control_bit = e.control_bit }
      ≡ node (block_to_uint128 e.prefix)

  pub written-All :
      (ps : List ℕ)
      → All IsPartial (
          partial_evaluations_for ps
            (map (λ n. n.seed) (map node ps))
            (map (λ n. n.control_bit) (map node ps)))
  unfolding partial_evaluations_for
  written-All [] = tt
  written-All (p ∷ ps) = (
    ap (λ s. record { seed = s; control_bit = (node p).control_bit })
          (block-round_trip (node p).seed)
        ∙ ap node (sym (block-round_trip p)),
    written-All ps,
  )

  inserted-All :
      (prefix : ℕ) (n : Lane) (m : List (ℕ × Lane)) {m' : List (ℕ × Lane)} (o : Option Lane)
      → n ≡ node prefix
      → All IsNode m
      → (elim o [
        | none ↦ ok ((prefix, n) ∷ m)
        | some there ↦ (do guard (same_lane there n) invalid_argument; ok m)
      ])
        ≡ ok m'
      → All IsNode m'
  inserted-All prefix n m none h all e = subst (All IsNode) (ok-injective e) (h, all)
  inserted-All prefix n m (some there) h all e =
      let (_, _, e') = >>=-eq-ok (guard (same_lane there n) invalid_argument) _ e in
      subst (All IsNode) (ok-injective e') all

  insert_prefix-All :
      (prefix : ℕ) (n : Lane) (m : List (ℕ × Lane)) {m' : List (ℕ × Lane)}
      → n ≡ node prefix
      → All IsNode m
      → insert_prefix prefix n m ≡ ok m'
      → All IsNode m'
  unfolding insert_prefix
  insert_prefix-All prefix n m h all e = inserted-All prefix n m (find_prefix prefix m) h all e

  pub parse_partial_evaluations-All :
      (es : List PartialEvaluation) (m : List (ℕ × Lane)) {m' : List (ℕ × Lane)}
      → All IsPartial es
      → All IsNode m
      → parse_partial_evaluations es m ≡ ok m'
      → All IsNode m'
  unfolding parse_partial_evaluations
  parse_partial_evaluations-All [] m h all e = subst (All IsNode) (ok-injective e) all
  parse_partial_evaluations-All (e ∷ es) m h all same =
      let (m', e1, e2) = >>=-eq-ok _ _ same in
      parse_partial_evaluations-All es m' h.1 (insert_prefix-All _ _ m h.0 all e1) e2

  found :
      (o : Option Lane) {n : Lane}
      → (elim o [ none ↦ err invalid_argument | some n' ↦ ok n' ]) ≡ ok n
      → o ≡ some n
  found none e = absurd (err≢ok e)
  found (some n') e = ap some (ok-injective e)

  pub select_prefixes-nodes :
      (levels : ℕ) (ps : List ℕ) (m : List (ℕ × Lane)) {ns : List Lane}
      → All IsNode m
      → select_prefixes levels ps m ≡ ok ns
      → ns ≡ map (λ p. node (shifted levels p)) ps
  unfolding select_prefixes
  select_prefixes-nodes levels [] m all e = sym (ok-injective e)
  select_prefixes-nodes levels (p ∷ ps) m all e =
      let (n, e1, e2) =
        >>=-eq-ok
          (elim (find_prefix (shifted levels p) m) [
            | none ↦ err invalid_argument
            | some n' ↦ ok n'
          ])
          _ e in
      let (ns, e3, e4) = >>=-eq-ok (select_prefixes levels ps m) _ e2 in
      sym (ok-injective e4)
      ∙ ap₂ ◌∷◌ (find_prefix-node (shifted levels p) m all (found _ e1))
          (select_prefixes-nodes levels ps m all e3)

module _ (d : Dpf) (l : Prg d.prg_left) (r : Prg d.prg_right) where
  -- `EvaluateSeeds` from any nodes, each along its own path, early returns included.
  pub evaluate_seeds-points :
      (words : List CorrectionWord) (ps : List Point)
      → evaluate_seeds d (seeds_of ps) (controls_of ps) (paths_of ps) words
        ≡ ok (
          map (λ p. (walk l.block r.block (map parse words) p.path p.lane).seed) ps,
          map (λ p. (walk l.block r.block (map parse words) p.path p.lane).control_bit) ps,
        )
  unfolding evaluate_seeds walk
  evaluate_seeds-points [] ps =
      rw
        (
          length-map ps (λ (p : Point). p.lane.seed),
          length-map ps (λ (p : Point). p.lane.control_bit),
          length-map ps (λ (p : Point). p.path),
          eq→== (length ps) (length ps) refl,
          evaluate_seeds_no_hwy_lem d.prg_left d.prg_right l r [] ps,
        )
        (if-same ((length ps == 0) || true) _)
  evaluate_seeds-points (w ∷ ws) [] = refl
  evaluate_seeds-points (w ∷ ws) (p ∷ ps) =
      rw
        (
          length-map ps (λ (p : Point). p.lane.seed),
          length-map ps (λ (p : Point). p.lane.control_bit),
          length-map ps (λ (p : Point). p.path),
          eq→== (suc (length ps)) (suc (length ps)) refl,
          lt→== 0 (suc (length ps)) (omega arith),
          lt→== 0 (suc (length ws)) (omega arith),
          evaluate_seeds_no_hwy_lem d.prg_left d.prg_right l r (map parse (w ∷ ws)) (p ∷ ps),
        )
        refl

  abbrev along : (ℕ → Lane) → ℕ → Point
  along f p = record { lane = f p; path = p }

  paths-along : (f : ℕ → Lane) (ps : List ℕ) → paths_of (map (along f) ps) ≡ ps
  paths-along f [] = refl
  paths-along f (p ∷ ps) = ap (◌∷◌ p) (paths-along f ps)

  -- The same, with the nodes and their paths in lists.
  pub evaluate_seeds-along :
      (f : ℕ → Lane) (ps : List ℕ) (words : List CorrectionWord)
      → evaluate_seeds d
          (map (λ n. n.seed) (map f ps))
          (map (λ n. n.control_bit) (map f ps))
          ps
          words
        ≡ ok (
          map (λ p. (walk l.block r.block (map parse words) p (f p)).seed) ps,
          map (λ p. (walk l.block r.block (map parse words) p (f p)).control_bit) ps,
        )
  evaluate_seeds-along f ps words =
      ap₂ (λ a b. evaluate_seeds d a b ps words) (map-map _ _ ps ∙ sym (map-map _ _ ps))
        (map-map _ _ ps ∙ sym (map-map _ _ ps))
      ∙ ap
          (λ c.
            evaluate_seeds d (seeds_of (map (along f) ps)) (controls_of (map (along f) ps)) c words)
          (sym (paths-along f ps))
      ∙ evaluate_seeds-points words (map (along f) ps)
      ∙ ap₂ (λ a b. ok (a, b)) (map-map _ _ ps) (map-map _ _ ps)
