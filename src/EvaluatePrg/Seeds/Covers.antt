-- ===== src/EvaluatePrg/Seeds/Covers.antt =====
-- The outputs of `EvaluateSeedsHwy` (dpf/internal/evaluate_prg_hwy.cc), part by part: each part has the
-- nodes of the points between two positions.
use mathlib.Core.List.{append_assoc, append-nil}
use distributed_point_functi.Base.{
  ℕ, ◌+◌, ◌≡◌, refl, sym, ap, ap₂, ◌∙◌, Bool, List, [], ◌∷◌, ◌++◌, map, length, take, drop,
  drop-drop, map-take-drop,
}
use distributed_point_functi.EvaluatePrg.{Lane}
use distributed_point_functi.EvaluatePrg.Loops.{Point}
use distributed_point_functi.EvaluatePrg.Seeds.{append}

drop-length : (ps : List Point) → drop (length ps) ps ≡ []
drop-length [] = refl
drop-length (p ∷ ps) = drop-length ps

abbrev pub Written : Type 0
Written = List ℕ × List Bool

-- The node that each point leads to, and the points.
module _ (node : Point → Lane) (ps : List Point) where
  -- What is to be written for the points from position p.
  abbrev pub rest_of : ℕ → Written
  rest_of p = (map (λ q. (node q).seed) (drop p ps), map (λ q. (node q).control_bit) (drop p ps))

  -- An output has what is to be written from position p up to position q.
  abbrev pub Covers : Written → ℕ → ℕ → Type 0
  Covers out p q = append out (rest_of q) ≡ rest_of p

  pub append-Covers :
      (out_0 out_1 : Written) (p q r : ℕ)
      → Covers out_0 p q
      → Covers out_1 q r
      → Covers (append out_0 out_1) p r
  unfolding append
  append-Covers out_0 out_1 p q r e f =
      ap₂ (λ x y. (x, y)) (append_assoc out_0.0 out_1.0 (rest_of r).0)
        (append_assoc out_0.1 out_1.1 (rest_of r).1)
      ∙ ap (append out_0) f
      ∙ e

  pub chunk-Covers :
      (out : Written) (p m : ℕ)
      → out.0 ≡ map (λ q. (node q).seed) (take m (drop p ps))
      → out.1 ≡ map (λ q. (node q).control_bit) (take m (drop p ps))
      → Covers out p (p + m)
  unfolding append
  chunk-Covers out p m e f =
      ap₂ (λ x y. (x, y))
        (ap₂ ◌++◌ e (ap (map (λ q. (node q).seed)) (sym (drop-drop m p ps)))
          ∙ map-take-drop (λ q. (node q).seed) m (drop p ps))
        (ap₂ ◌++◌ f (ap (map (λ q. (node q).control_bit)) (sym (drop-drop m p ps)))
          ∙ map-take-drop (λ q. (node q).control_bit) m (drop p ps))

  pub nothing_left : (out : Written) → append out (rest_of (length ps)) ≡ out
  unfolding append
  nothing_left out =
      ap₂ (λ (x : List ℕ) (y : List Bool). (x, y))
        (ap (λ l. out.0 ++ map (λ q. (node q).seed) l) (drop-length ps) ∙ append-nil out.0)
        (ap (λ l. out.1 ++ map (λ q. (node q).control_bit) l) (drop-length ps) ∙ append-nil out.1)
