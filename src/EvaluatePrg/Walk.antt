-- ===== src/EvaluatePrg/Walk.antt =====
-- One walk down the tree, as the incremental DPF paper describes it: the reference for the loops.
use distributed_point_functi.Base.{
  ℕ, suc, ◌/◌, ◌<◌, ◌≡◌, refl, ap, ◌∙◌, Bool, List, [], ◌∷◌, ◌++◌, length, arith, test_bit-suc,
  lt→ltb, length-append,
}
use distributed_point_functi.EvaluatePrg.{Correction, Lane, path_bit, correct}

module _ (left right : ℕ → ℕ) where
  -- The child of a node, on the side that `b` tells.
  abbrev pub child : Correction → Bool → Lane → Lane
  child c b n = correct c b n.control_bit (left n.seed) (right n.seed)

  -- The node that the lowest bits of `path` lead to, most significant bit first.
  unfoldable pub walk : List Correction → ℕ → Lane → Lane
  walk [] path n = n
  walk (c ∷ cs) path n = walk cs path (child c (path_bit (length cs) path) n)

pub path_bit-suc : (x k : ℕ) → suc k < 128 → path_bit (suc k) x ≡ path_bit k (x / 2)
unfolding path_bit
path_bit-suc x k h = rw (lt→ltb (suc k) 128 h, lt→ltb k 128 (omega arith)) (test_bit-suc x k)

length_snoc : (cs : List Correction) (c : Correction) → length (cs ++ c ∷ []) ≡ suc (length cs)
length_snoc cs c = omega (arith, length-append cs (c ∷ []))

module _ (left right : ℕ → ℕ) where
  -- The last correction word is used for the lowest bit of the path.
  pub walk-snoc :
      (cs : List Correction) (c : Correction) (path : ℕ) (n : Lane)
      → length cs < 128
      → walk left right (cs ++ c ∷ []) path n
        ≡ child left right c (path_bit 0 path) (walk left right cs (path / 2) n)
  unfolding walk
  walk-snoc [] c path n h = refl
  walk-snoc (d ∷ cs) c path n h =
      let bit : path_bit (length (cs ++ c ∷ [])) path ≡ path_bit (length cs) (path / 2) =
        ap (λ t. path_bit t path) (length_snoc cs c) ∙ path_bit-suc path (length cs) h in
      ap (λ b. walk left right (cs ++ c ∷ []) path (child left right d b n)) bit
      ∙ walk-snoc cs c path (child left right d (path_bit (length cs) (path / 2)) n) (omega arith)
