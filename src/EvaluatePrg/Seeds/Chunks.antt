-- ===== src/EvaluatePrg/Seeds/Chunks.antt =====
-- What one vector writes (dpf/internal/evaluate_prg_hwy.cc): the nodes that the paths of its blocks
-- lead to.
use distributed_point_functi.Base.{
  ℕ, zero, suc, ◌+◌, ◌*◌, ◌/◌, ◌<◌, ◌≤◌, ◌≡◌, refl, sym, ap, ap₂, ◌∙◌, subst, Bool, false, ◌&&◌,
  List, [], ◌∷◌, map, length, take, drop, get_or, upto, All, arith, u128_mod, if◌then◌else◌, ltb,
  leb, length-map, length-upto,
}
use distributed_point_functi.Aes.Hash.{hash}
use distributed_point_functi.Validator.Valid.{get_or-map}
use distributed_point_functi.EvaluatePrg.{Correction, Lane}
use distributed_point_functi.EvaluatePrg.Loops.{Point, controls_of, end}
use distributed_point_functi.EvaluatePrg.Highway.{Highway, IsHighway, blocks_per_vector}
use distributed_point_functi.EvaluatePrg.Vectors.{
  VectorState, mask_bit, mask_from_bools, bools_from_mask, vector_levels,
}
use distributed_point_functi.EvaluatePrg.Vectors.Hash.{IsKeySchedule}
use distributed_point_functi.EvaluatePrg.Vectors.Step.{Agrees, vector_levels-Agrees}

abbrev pub nothing : Point
nothing = record { lane = record { seed = 0; control_bit = false }; path = 0 }

abbrev pub point_at : List Point → ℕ → Point
point_at ps k = get_or ps k nothing

drop_at : (k : ℕ) (ps : List Point) → k < length ps → drop k ps ≡ point_at ps k ∷ drop (suc k) ps
drop_at k [] h = absurd (omega arith)
drop_at zero (p ∷ ps) h = refl
drop_at (suc k) (p ∷ ps) h = drop_at k ps (omega arith)

-- A list that is written by index.
pub map-upto_points {ℓ} :
    {B : Type ℓ} (ps : List Point) (f : Point → B) (g : ℕ → B) (s m p : ℕ)
    → ((j : ℕ) → j < m → g (s + j) ≡ f (point_at ps (p + j)))
    → p + m ≤ length ps
    → map g (upto s m) ≡ map f (take m (drop p ps))
map-upto_points ps f g s zero p h fits = refl
map-upto_points ps f g s (suc m) p h fits =
    ap₂ ◌∷◌
      (ap g {x = s} {y = s + 0} (omega arith)
        ∙ h 0 (omega arith)
        ∙ ap (λ k. f (point_at ps k)) {x = p + 0} {y = p} (omega arith))
      (map-upto_points ps f g (suc s) m (suc p)
        (λ j below.
          ap g {x = suc s + j} {y = s + suc j} (omega arith)
          ∙ h (suc j) (omega arith)
          ∙ ap (λ k. f (point_at ps k)) {x = p + suc j} {y = suc p + j} (omega arith))
        (omega arith))
    ∙ ap (λ l. map f (take (suc m) l)) (sym (drop_at p ps (omega arith)))

pub get_or-map-upto :
    (f : ℕ → Bool) (s m i : ℕ) → i < m → get_or (map f (upto s m)) i false ≡ f (s + i)
get_or-map-upto f s zero i h = absurd (omega arith)
get_or-map-upto f s (suc m) zero h = ap f (omega arith)
get_or-map-upto f s (suc m) (suc i) h =
    get_or-map-upto f (suc s) m i (omega arith) ∙ ap f {x = suc s + i} {y = s + suc i} (omega arith)

take-map-upto {ℓ} :
    {B : Type ℓ} (g : ℕ → B) (s m n : ℕ) → m ≤ n → take m (map g (upto s n)) ≡ map g (upto s m)
take-map-upto g s zero n h = refl
take-map-upto g s (suc m) zero h = absurd (omega arith)
take-map-upto g s (suc m) (suc n) h = ap (◌∷◌ (g s)) (take-map-upto g (suc s) m n (omega arith))

module _ (hw : Highway) (round last_round : ℕ → ℕ → ℕ) (laws : IsHighway hw round last_round)
    (ps : List Point) where
  -- A mask that is loaded has the control bits.
  mask_from_bools-bit :
      (p max j i : ℕ)
      → j < blocks_per_vector hw
      → i < 2 * blocks_per_vector hw
      → i / 2 ≡ j
      → p + j < length ps
      → (ltb 0 max && leb max j) ≡ false
      → laws.bit (mask_from_bools hw (controls_of ps) p max) i
        ≡ (point_at ps (p + j)).lane.control_bit
  unfolding mask_from_bools mask_bit
  mask_from_bools-bit p max j i inside half same fits chosen =
      laws.load_mask_bit _ i half (
        omega (
          arith,
          length-map (upto 0 (2 * blocks_per_vector hw)) (mask_bit hw (controls_of ps) p max),
          length-upto 0 (2 * blocks_per_vector hw),
          half,
        ))
      ∙ get_or-map-upto (mask_bit hw (controls_of ps) p max) 0 (2 * blocks_per_vector hw) i half
      ∙ ap (λ k. if ltb 0 max && leb max k then false else get_or (controls_of ps) (p + k) false)
          {x = (0 + i) / 2} {y = j} (omega (arith, same))
      ∙ ap (λ c. if c then false else get_or (controls_of ps) (p + j) false) chosen
      ∙ get_or-map (λ (q : Point). q.lane.control_bit) ps (p + j) nothing false fits

  -- The state that a vector starts with.
  start-Agrees :
      (v : hw.Vector) (p max j : ℕ) (inside : j < blocks_per_vector hw)
      → p + j < length ps
      → (ltb 0 max && leb max j) ≡ false
      → laws.block v j ≡ (point_at ps (p + j)).lane.seed
      → (point_at ps (p + j)).lane.seed < u128_mod
      → Agrees hw round last_round laws j inside
          (record { vec = v; control_mask = mask_from_bools hw (controls_of ps) p max })
          (point_at ps (p + j)).lane
  start-Agrees v p max j inside fits chosen e small = record {
    seed = e;
    control = record {
      low =
          mask_from_bools-bit p max j (2 * j) inside (omega (arith, inside)) (omega arith) fits
            chosen;
      high =
          mask_from_bools-bit p max j (2 * j + 1) inside (omega (arith, inside)) (omega arith) fits
            chosen;
    };
    small = small;
  }

  module _ (keys_0 keys_1 : List ℕ) (cipher_0 cipher_1 : ℕ → ℕ)
      (schedule_0 : IsKeySchedule round last_round keys_0 cipher_0)
      (schedule_1 : IsKeySchedule round last_round keys_1 cipher_1)
      (below_0 : (x : ℕ) → cipher_0 x < u128_mod) (below_1 : (x : ℕ) → cipher_1 x < u128_mod)
      (cs : List Correction) (levels : length cs ≤ 128)
      (corrections : All (λ c. c.seed < u128_mod) cs)
      (seeds : (k : ℕ) → k < length ps → (point_at ps k).lane.seed < u128_mod) where
    -- The node at the end of a path.
    abbrev pub last_node : Point → Lane
    last_node = end (hash cipher_0) (hash cipher_1) cs

    -- The seeds and control bits of the nodes, of m points from position p.
    abbrev pub last_nodes : ℕ → ℕ → List ℕ × List Bool
    last_nodes p m = (
      map (λ q. (last_node q).seed) (take m (drop p ps)),
      map (λ q. (last_node q).control_bit) (take m (drop p ps)),
    )

    -- A vector whose first m blocks are loaded from position p.
    module _ (v path : hw.Vector) (p max m : ℕ) (room : m ≤ blocks_per_vector hw)
        (fits : p + m ≤ length ps) (chosen : (j : ℕ) → j < m → (ltb 0 max && leb max j) ≡ false)
        (vector : (j : ℕ) → j < m → laws.block v j ≡ (point_at ps (p + j)).lane.seed)
        (on_path : (j : ℕ) → j < m → laws.block path j ≡ (point_at ps (p + j)).path) where
      abbrev pub final : VectorState hw
      final =
          vector_levels hw keys_0 keys_1 cs path
            (record { vec = v; control_mask = mask_from_bools hw (controls_of ps) p max })

      final-Agrees :
          (j : ℕ) (below : j < m)
          → Agrees hw round last_round laws j
              (omega (arith, below, room))
              final
              (last_node (point_at ps (p + j)))
      final-Agrees j below =
          subst
            (λ x. Agrees hw round last_round laws j (omega (arith, below, room)) final (
              end (hash cipher_0) (hash cipher_1) cs
                (record { lane = (point_at ps (p + j)).lane; path = x })))
            (on_path j below)
            (vector_levels-Agrees hw round last_round laws j (omega (arith, below, room)) keys_0
              keys_1 cipher_0 cipher_1 schedule_0 schedule_1 below_0 below_1 cs path _ _ levels
              corrections
              (start-Agrees v p max j (omega (arith, below, room)) (omega (arith, below, fits))
                (chosen j below) (vector j below) (seeds (p + j) (omega (arith, below, fits)))))

      pub stored_seeds : take m (hw.store final.vec) ≡ (last_nodes p m).0
      stored_seeds =
          ap (take m) (laws.store_blocks final.vec)
          ∙ take-map-upto (laws.block final.vec) 0 m (blocks_per_vector hw) room
          ∙ map-upto_points ps (λ q. (last_node q).seed) (laws.block final.vec) 0 m p
              (λ j below.
                ap (laws.block final.vec) {x = 0 + j} {y = j} (omega arith)
                ∙ (final-Agrees j below).seed)
              fits

      pub stored_bits :
          (if ltb 0 max then max else blocks_per_vector hw) ≡ m
          → bools_from_mask hw final.control_mask max ≡ (last_nodes p m).1
      unfolding bools_from_mask
      stored_bits counted =
          ap
            (λ n.
              map (λ i. get_or (hw.store_mask_bits final.control_mask) (2 * i) false) (upto 0 n))
            counted
          ∙ map-upto_points ps (λ q. (last_node q).control_bit)
              (λ i. get_or (hw.store_mask_bits final.control_mask) (2 * i) false) 0 m p
              (λ j below.
                ap (λ i. get_or (hw.store_mask_bits final.control_mask) (2 * i) false) {x = 0 + j}
                  {y = j} (omega arith)
                ∙ laws.store_mask_bit final.control_mask (2 * j) (omega (arith, below, room))
                ∙ (final-Agrees j below).control.low)
              fits
