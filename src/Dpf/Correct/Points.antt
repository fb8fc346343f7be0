-- ===== src/Dpf/Correct/Points.antt =====
-- All evaluation points of one call of `EvaluateAt`: every point is evaluated by itself.
use mathlib.Core.List.{map-map}
use distributed_point_functi.Base.{
  ℕ, ◌≡◌, refl, sym, ap, ap₂, ◌∙◌, Bool, true, false, ◌||◌, List, [], ◌∷◌, map, Status, ok, ◌==◌,
  if◌then◌else◌, length, replicate, arith, ok-injective, >>=-eq-ok, eq→==, length-map,
  length-replicate, All,
}
use distributed_point_functi.Aes.Hash.{Prg}
use distributed_point_functi.Proto.{CorrectionWord}
use distributed_point_functi.EvaluatePrg.{Lane, evaluate_seeds_no_hwy}
use distributed_point_functi.EvaluatePrg.Walk.{walk}
use distributed_point_functi.EvaluatePrg.Loops.{
  Point, seeds_of, controls_of, paths_of, evaluate_seeds_no_hwy_lem,
}
use distributed_point_functi.Values.{ElementType, Element, add}
use distributed_point_functi.Dpf.{Dpf, parse, evaluate_seeds}
use distributed_point_functi.Dpf.Evaluate.{hash_inputs, correct_values}
use distributed_point_functi.Dpf.Correct.Block.{elements_of, take-hashes, drop-hashes}
use distributed_point_functi.Dpf.Correct.Point.{output}

-- The sums of the parties' outputs.
abbrev pub sums : ElementType → List Element → List Element → List Element
sums t (x ∷ xs) (y ∷ ys) = add t x y ∷ sums t xs ys
sums t _ _ = []

module _ (root : Lane) (path : ℕ → ℕ) where
  abbrev at_point : ℕ → Point
  at_point x = record { lane = root; path = path x }

  seeds-same : (xs : List ℕ) → seeds_of (map at_point xs) ≡ replicate (length xs) root.seed
  seeds-same [] = refl
  seeds-same (x ∷ xs) = ap (◌∷◌ root.seed) (seeds-same xs)

  controls-same :
      (xs : List ℕ) → controls_of (map at_point xs) ≡ replicate (length xs) root.control_bit
  controls-same [] = refl
  controls-same (x ∷ xs) = ap (◌∷◌ root.control_bit) (controls-same xs)

  paths-same : (xs : List ℕ) → paths_of (map at_point xs) ≡ map path xs
  paths-same [] = refl
  paths-same (x ∷ xs) = ap (◌∷◌ (path x)) (paths-same xs)

pub replicate-constant {ℓ} :
    {A : Type ℓ} (a : A) (xs : List ℕ) → replicate (length xs) a ≡ map (λ _. a) xs
replicate-constant a [] = refl
replicate-constant a (x ∷ xs) = ap (◌∷◌ a) (replicate-constant a xs)

if_same {ℓ} : {A : Type ℓ} (b : Bool) (x y : A) → (b ≡ true → x ≡ y) → (if b then x else y) ≡ y
if_same true x y h = h refl
if_same false x y h = refl

-- The case that `EvaluateSeeds` returns early in: no seeds or no correction words.
module _ (left right : ℕ → ℕ) (root : Lane) (path : ℕ → ℕ) where
  abbrev returned : List ℕ → List Bool → Status (List ℕ × List Bool)
  returned a b = ok (a, b)

  abbrev leaf_of : List CorrectionWord → ℕ → Lane
  leaf_of words x = walk left right (map parse words) (path x) root

  early_return :
      (words : List CorrectionWord) (xs : List ℕ)
      → ((length xs == 0) || (length words == 0)) ≡ true
      → returned (replicate (length xs) root.seed) (replicate (length xs) root.control_bit)
        ≡ returned
            (map (λ x. (leaf_of words x).seed) xs)
            (map (λ x. (leaf_of words x).control_bit) xs)
  unfolding walk
  early_return words [] h = refl
  early_return [] (x ∷ xs) h =
      ap₂ returned (replicate-constant root.seed (x ∷ xs))
        (replicate-constant root.control_bit (x ∷ xs))
  early_return (w ∷ words) (x ∷ xs) h = absurd (ground arith)

module _ (d : Dpf) (l : Prg d.prg_left) (r : Prg d.prg_right) (words : List CorrectionWord)
    (root : Lane) (path : ℕ → ℕ) where
  abbrev pub leaf : ℕ → Lane
  leaf x = walk l.block r.block (map parse words) (path x) root

  abbrev leaves : List ℕ → List ℕ × List Bool
  leaves xs = (map (λ x. (leaf x).seed) xs, map (λ x. (leaf x).control_bit) xs)

  no_hwy-leaves :
      (xs : List ℕ)
      → evaluate_seeds_no_hwy d.prg_left d.prg_right
          (map parse words)
          (replicate (length xs) root.seed)
          (replicate (length xs) root.control_bit)
          (map path xs)
        ≡ ok (leaves xs)
  no_hwy-leaves xs =
      rw (← seeds-same root path xs, ← controls-same root path xs, ← paths-same root path xs)
        (evaluate_seeds_no_hwy_lem d.prg_left d.prg_right l r (map parse words)
            (map (at_point root path) xs)
          ∙ ap₂ (λ a b. ok (a, b)) (map-map _ _ xs) (map-map _ _ xs))

  pub evaluate_seeds-leaves :
      (xs : List ℕ)
      → evaluate_seeds d
          (replicate (length xs) root.seed)
          (replicate (length xs) root.control_bit)
          (map path xs)
          words
        ≡ ok (map (λ x. (leaf x).seed) xs, map (λ x. (leaf x).control_bit) xs)
  unfolding evaluate_seeds
  evaluate_seeds-leaves xs =
      rw
        (
          length-replicate (length xs) root.seed,
          length-replicate (length xs) root.control_bit,
          length-map xs path,
          eq→== (length xs) (length xs) refl,
          no_hwy-leaves xs,
        )
        (if_same _ _ _ (early_return l.block r.block root path words xs))

module _ (f : ℕ → ℕ) (t : ElementType) (k : ℕ) (ints : List Element) where
  module _ (leaf_0 leaf_1 : ℕ → Lane) (index : ℕ → ℕ) (expected : ℕ → Element) where
    -- The outputs at a point add up to what is expected there.
    abbrev pub SharesPoint : ℕ → Type 0
    SharesPoint x =
        (es_0 es_1 : List Element)
        → elements_of f t k (leaf_0 x).seed ≡ ok es_0
        → elements_of f t k (leaf_1 x).seed ≡ ok es_1
        → add t (output t ints (leaf_0 x) 0 (index x) es_0)
            (output t ints (leaf_1 x) 1 (index x) es_1)
          ≡ expected x

    abbrev run : ℕ → (ℕ → Lane) → List ℕ → Status (List Element)
    run party leaf xs =
        correct_values t party k ints (map index xs) (map (λ x. (leaf x).control_bit) xs)
          (map f (hash_inputs k (map (λ x. (leaf x).seed) xs)))

    run-cons :
        (party : ℕ) (leaf : ℕ → Lane) (x : ℕ) (xs : List ℕ) {os : List Element}
        → run party leaf (x ∷ xs) ≡ ok os
        → (es rest : List Element) × (elements_of f t k (leaf x).seed ≡ ok es)
          × (run party leaf xs ≡ ok rest)
          × (output t ints (leaf x) party (index x) es ∷ rest ≡ os)
    unfolding correct_values hash_inputs
    run-cons party leaf x xs e =
        let (es, e1, e2) = >>=-eq-ok _ _ (
          rw
            (
              take-hashes f k (leaf x).seed (hash_inputs k (map (λ y. (leaf y).seed) xs)),
              drop-hashes f k (leaf x).seed (hash_inputs k (map (λ y. (leaf y).seed) xs)),
            )
            at e) in
        let (rest, e3, e4) = >>=-eq-ok _ _ e2 in (es, rest, e1, e3, ok-injective e4)

    pub correct_values-shares :
        (xs : List ℕ) {os_0 os_1 : List Element}
        → All SharesPoint xs
        → run 0 leaf_0 xs ≡ ok os_0
        → run 1 leaf_1 xs ≡ ok os_1
        → sums t os_0 os_1 ≡ map expected xs
    unfolding correct_values
    correct_values-shares [] h e0 e1 = ap₂ (sums t) (sym (ok-injective e0)) (sym (ok-injective e1))
    correct_values-shares (x ∷ xs) h e0 e1 =
        let (es_0, rest_0, here_0, more_0, all_0) = run-cons 0 leaf_0 x xs e0 in
        let (es_1, rest_1, here_1, more_1, all_1) = run-cons 1 leaf_1 x xs e1 in
        ap₂ (sums t) (sym all_0) (sym all_1)
        ∙ ap₂ ◌∷◌ (h.0 es_0 es_1 here_0 here_1) (correct_values-shares xs h.1 more_0 more_1)
