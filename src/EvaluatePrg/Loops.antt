-- ===== src/EvaluatePrg/Loops.antt =====
-- The nested loops over batches, levels and seeds walk each path by itself.
use mathlib.Core.List.{map-map}
use distributed_point_functi.Base.{
  ℕ, zero, suc, ◌≤◌, ◌≡◌, refl, ap, ap₂, Bool, List, [], ◌∷◌, length, map, take, drop, ok, arith,
  length-map, length-drop, take-map, drop-map, map-take-drop,
}
use distributed_point_functi.Aes.{Aes128FixedKeyHash, batch_size, evaluate}
use distributed_point_functi.Aes.Hash.{Prg}
use distributed_point_functi.EvaluatePrg.{
  Correction, Lane, path_bit, correct_lanes, evaluate_levels, evaluate_batches,
  evaluate_seeds_no_hwy,
}
use distributed_point_functi.EvaluatePrg.Walk.{child, walk}

-- An index of the input arrays.
pub record Point : Type 0 where
  pub lane : Lane
  pub path : ℕ

abbrev pub seeds_of : List Point → List ℕ
seeds_of = map (λ p. p.lane.seed)

abbrev pub controls_of : List Point → List Bool
controls_of = map (λ p. p.lane.control_bit)

abbrev pub paths_of : List Point → List ℕ
paths_of = map (λ p. p.path)

module _ (left right : ℕ → ℕ) where
  abbrev pub end : List Correction → Point → Lane
  end cs p = walk left right cs p.path p.lane

  abbrev move : Correction → ℕ → Point → Point
  move c bit_index p = record {
    lane = child left right c (path_bit bit_index p.path) p.lane;
    path = p.path;
  }

  correct_lanes-map :
      (c : Correction) (k : ℕ) (ps : List Point)
      → correct_lanes c k
          (controls_of ps)
          (paths_of ps)
          (map left (seeds_of ps))
          (map right (seeds_of ps))
        ≡ map (λ p. (move c k p).lane) ps
  unfolding correct_lanes
  correct_lanes-map c k [] = refl
  correct_lanes-map c k (p ∷ ps) = ap (◌∷◌ (move c k p).lane) (correct_lanes-map c k ps)

module _ (prg_left prg_right : Aes128FixedKeyHash) (l : Prg prg_left) (r : Prg prg_right) where
  evaluates_map :
      {prg : Aes128FixedKeyHash} (g : Prg prg) (ps : List Point)
      → evaluate prg (seeds_of ps) (length (seeds_of ps)) ≡ ok (map g.block (seeds_of ps))
  evaluates_map g ps = g.evaluates (seeds_of ps)

  evaluate_levels_lem :
      (cs : List Correction) (ps : List Point)
      → evaluate_levels prg_left prg_right cs (seeds_of ps) (controls_of ps) (paths_of ps)
        ≡ ok (
          map (λ p. (end l.block r.block cs p).seed) ps,
          map (λ p. (end l.block r.block cs p).control_bit) ps,
        )
  unfolding evaluate_levels walk
  evaluate_levels_lem [] ps = refl
  evaluate_levels_lem (c ∷ cs) ps =
      rw
        (
          evaluates_map l ps,
          evaluates_map r ps,
          correct_lanes-map l.block r.block c (length cs) ps,
          map-map (λ (n : Lane). n.seed)
              (λ (p : Point). (move l.block r.block c (length cs) p).lane) ps,
          map-map (λ (n : Lane). n.control_bit)
              (λ (p : Point). (move l.block r.block c (length cs) p).lane) ps,
        )
        (simp map-map at (evaluate_levels_lem cs (map (move l.block r.block c (length cs)) ps)))

  abbrev pub results : List Correction → List Point → List ℕ × List Bool
  results cs ps = (
    map (λ p. (end l.block r.block cs p).seed) ps,
    map (λ p. (end l.block r.block cs p).control_bit) ps,
  )

  evaluate_batches_lem :
      (fuel : ℕ) (cs : List Correction) (ps : List Point)
      → length ps ≤ fuel
      → evaluate_batches prg_left prg_right fuel cs (seeds_of ps) (controls_of ps) (paths_of ps)
        ≡ ok (results cs ps)
  unfolding evaluate_batches
  evaluate_batches_lem zero cs [] h = refl
  evaluate_batches_lem zero cs (p ∷ ps) h = absurd (omega arith)
  evaluate_batches_lem (suc fuel) cs [] h = refl
  evaluate_batches_lem (suc fuel) cs (p ∷ ps) h =
      rw
        (
          take-map (λ (q : Point). q.lane.seed) batch_size (p ∷ ps),
          take-map (λ (q : Point). q.lane.control_bit) batch_size (p ∷ ps),
          take-map (λ (q : Point). q.path) batch_size (p ∷ ps),
          drop-map (λ (q : Point). q.lane.seed) batch_size (p ∷ ps),
          drop-map (λ (q : Point). q.lane.control_bit) batch_size (p ∷ ps),
          drop-map (λ (q : Point). q.path) batch_size (p ∷ ps),
          evaluate_levels_lem cs (take batch_size (p ∷ ps)),
          evaluate_batches_lem fuel cs (drop batch_size (p ∷ ps))
              (omega (arith, length-drop batch_size (p ∷ ps))),
        )
        (ap₂ (λ ss ts. ok (ss, ts))
          (map-take-drop (λ (q : Point). (end l.block r.block cs q).seed) batch_size (p ∷ ps))
          (map-take-drop (λ (q : Point). (end l.block r.block cs q).control_bit) batch_size
            (p ∷ ps)))

  -- With PRGs that hash single blocks, the nested loops over batches, levels and seeds succeed, and
  -- write for every seed the node that its own path leads to, for any number of seeds and levels.
  pub evaluate_seeds_no_hwy_lem :
      (cs : List Correction) (ps : List Point)
      → evaluate_seeds_no_hwy prg_left prg_right cs (seeds_of ps) (controls_of ps) (paths_of ps)
        ≡ ok (results cs ps)
  unfolding evaluate_seeds_no_hwy
  evaluate_seeds_no_hwy_lem cs ps =
      evaluate_batches_lem (length (seeds_of ps)) cs ps
        (omega (arith, length-map ps (λ p. p.lane.seed)))
