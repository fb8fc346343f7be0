-- ===== src/EvaluatePrg/Resume.antt =====
-- A walk down the tree in two parts, as evaluation contexts split it.
use native.Mathlib.Nat.{pow-suc, div-div-eq-div-mul}
use distributed_point_functi.Base.{
  ℕ, zero, suc, ◌+◌, ◌/◌, ◌*◌, ◌^◌, ◌≤◌, ◌<◌, ◌≡◌, refl, ap, ◌∙◌, List, [], ◌∷◌, ◌++◌, length,
  arith, length-append,
}
use distributed_point_functi.EvaluatePrg.{Correction, Lane, path_bit}
use distributed_point_functi.EvaluatePrg.Walk.{child, walk, path_bit-suc}

path_bit-add : (x k j : ℕ) → k + j < 128 → path_bit (k + j) x ≡ path_bit k (x / 2 ^ j)
path_bit-add x k zero h =
    ap (λ i. path_bit i x) {x = k + 0} {y = k} (omega arith)
    ∙ ap (path_bit k) {x = x} {y = x / 1} (omega arith)
path_bit-add x k (suc j) h =
    ap (λ i. path_bit i x) {x = k + suc j} {y = suc (k + j)} (omega arith)
    ∙ path_bit-suc x (k + j) (omega arith)
    ∙ path_bit-add (x / 2) k j (omega arith)
    ∙ ap (path_bit k) (
        div-div-eq-div-mul x 2 (2 ^ j)
        ∙ ap (λ m. x / m) {x = 2 * 2 ^ j} {y = 2 ^ suc j} (omega (arith, pow-suc 2 j)))

module _ (left right : ℕ → ℕ) where
  pub walk-append :
      (cs ds : List Correction) (path : ℕ) (n : Lane)
      → length cs + length ds ≤ 128
      → walk left right (cs ++ ds) path n
        ≡ walk left right ds path (walk left right cs (path / 2 ^ length ds) n)
  unfolding walk
  walk-append [] ds path n h = refl
  walk-append (c ∷ cs) ds path n h =
      ap (λ b. walk left right (cs ++ ds) path (child left right c b n))
        (ap (λ i. path_bit i path) (length-append cs ds)
          ∙ path_bit-add path (length cs) (length ds) (omega arith))
      ∙ walk-append cs ds path (child left right c (path_bit (length cs) (path / 2 ^ length ds)) n)
          (omega arith)
