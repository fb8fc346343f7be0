-- ===== src/Dpf/Correct/Level.antt =====
-- A hierarchy level of a DPF object that was set up consistently, and the arithmetic of its
-- indices: a point is the index of its leaf, and an index in the leaf's block.
use native.Mathlib.Decide.{dec_lt}
use native.Mathlib.Nat.{
  div-div-eq-div-mul, pow-suc, div-eq_of_lt, one-le-pow, div-lt_iff_lt-mul, mod-lt,
}
use distributed_point_functi.Base.{
  ℕ, zero, suc, ◌+◌, ◌-◌, ◌/◌, ◌%◌, ◌^◌, ◌≤◌, ◌<◌, ◌≡◌, refl, sym, ap, ◌∙◌, subst, Bool, true,
  false, ◌&&◌, List, [], ◌∷◌, some, ok, if◌then◌else◌, ltb, leb, length, arith, pow-add, All,
  lt→ltb,
}
use distributed_point_functi.Values.{ElementType, IsSupported}
use distributed_point_functi.Values.Bytes.{elements_per_block}
use distributed_point_functi.Dpf.{
  Dpf, log_domain_size, last_log_domain_size, tree_level, find, get_value_correction_function,
  domain_to_tree_index, domain_to_block_index,
}
use distributed_point_functi.Dpf.Generate.{alpha_prefix}
use distributed_point_functi.Dpf.Evaluate.{
  all_in_domain, max_evaluation_point, tree_index, block_index,
}

-- Where the value correction of a level is stored.
pub data Place (d : Dpf) (h : ℕ) : Type 0 where
  inner :
      h < length d.parameters - 1
      → tree_level d h < d.tree_levels_needed - 1
      → find (tree_level d h) d.tree_to_hierarchy ≡ some h
      → Place d h
  last : h ≡ length d.parameters - 1 → tree_level d h ≡ d.tree_levels_needed - 1 → Place d h

-- What `Create` and `RegisterValueType` set up for a hierarchy level with values of type t.
pub record IsLevel (d : Dpf) (t : ElementType) (h : ℕ) : Type 0 where
  pub supported : IsSupported t
  pub registered : get_value_correction_function d h ≡ ok t
  pub place : Place d h
  pub level_fits : tree_level d h ≤ log_domain_size d h
  pub domain_fits : log_domain_size d h ≤ last_log_domain_size d
  pub bounded : last_log_domain_size d ≤ 128
  pub tree_fits : d.tree_levels_needed - 1 ≤ last_log_domain_size d
  pub block_fits : 2 ^ (log_domain_size d h - tree_level d h) ≤ elements_per_block t

pow_le_one : (m : ℕ) → 2 ^ m ≤ 1 → m ≡ 0
pow_le_one zero h = refl
pow_le_one (suc m) h = absurd (omega (arith, pow-suc 2 m, one-le-pow m 2 (omega arith)))

not_below : (a b : ℕ) → ¬ a < b → ltb a b ≡ false
not_below a b h = ground arith

-- With one element in a block, a point is the index of its leaf.
select_leaf : (e m x : ℕ) → 2 ^ m ≤ e → (if ltb 1 e then x / 2 ^ m else x) ≡ x / 2 ^ m
select_leaf e m x fits = elim (dec_lt 1 e) [
  | yes packed ↦ rw (lt→ltb 1 e packed)
  | no single ↦ rw (not_below 1 e single, pow_le_one m (omega arith)) (omega arith)
]

select_index : (e m x : ℕ) → 2 ^ m ≤ e → (if ltb 1 e then x % 2 ^ m else 0) ≡ x % 2 ^ m
select_index e m x fits = elim (dec_lt 1 e) [
  | yes packed ↦ rw (lt→ltb 1 e packed)
  | no single ↦ rw (not_below 1 e single, pow_le_one m (omega arith)) (omega arith)
]

-- A shift by all 128 bits.
shift_out :
    (s alpha : ℕ)
    → s ≤ 128
    → alpha < 2 ^ 128
    → (if ltb s 128 then alpha / 2 ^ s else 0) ≡ alpha / 2 ^ s
shift_out s alpha h fits = elim (dec_lt s 128) [
  | yes small ↦ rw (lt→ltb s 128 small)
  | no large ↦
      rw (not_below s 128 large)
        (sym (ap (λ k. alpha / 2 ^ k) {x = s} {y = 128} (omega arith) ∙ div-eq_of_lt fits))
]

pub quotient_below : (l k x : ℕ) → k ≤ l → x < 2 ^ l → x / 2 ^ (l - k) < 2 ^ k
quotient_below l k x h below = (div-lt_iff_lt-mul (one-le-pow (l - k) 2 (omega arith))).1 (
    subst (λ b. x < b) (ap (◌^◌ 2) {x = l} {y = k + (l - k)} (omega arith) ∙ pow-add k (l - k))
      below)

below_max : (l x : ℕ) → l ≤ 128 → leb x (max_evaluation_point l) ≡ true → x < 2 ^ l
below_max l x h e = elim (dec_lt l 128) [
  | yes small ↦ pred_below (2 ^ l) x (one-le-pow l 2 (omega arith)) (rw (lt→ltb l 128 small) at e)
  | no large ↦
      subst (λ k. x < 2 ^ k) {x = 128} {y = l} (omega arith)
        (pred_below (2 ^ 128) x (omega arith) (rw (not_below l 128 large) at e))
]
  where
    pred_below : (b x : ℕ) → 1 ≤ b → leb x (b - 1) ≡ true → x < b
    pred_below b x h e = ground arith

both_true : (a b : Bool) → (a && b) ≡ true → (a ≡ true) × (b ≡ true)
both_true true b e = (refl, e)
both_true false b e = absurd (ground arith)

module _ (d : Dpf) (t : ElementType) (h : ℕ) (level : IsLevel d t h) where
  abbrev m : ℕ
  m = log_domain_size d h - tree_level d h

  pub tree_index_lem : (x : ℕ) → tree_index d t h x ≡ x / 2 ^ (log_domain_size d h - tree_level d h)
  unfolding domain_to_tree_index
  tree_index_lem x = select_leaf (elements_per_block t) m x level.block_fits

  pub block_index_lem :
      (x : ℕ) → block_index d t h x ≡ x % 2 ^ (log_domain_size d h - tree_level d h)
  unfolding domain_to_block_index
  block_index_lem x = select_index (elements_per_block t) m x level.block_fits

  pub alpha_prefix_lem :
      (alpha : ℕ)
      → alpha < 2 ^ 128
      → alpha_prefix d h alpha ≡ alpha / 2 ^ (last_log_domain_size d - log_domain_size d h)
  unfolding alpha_prefix
  alpha_prefix_lem alpha fits =
      shift_out (last_log_domain_size d - log_domain_size d h) alpha (omega (arith, level.bounded))
        fits

  -- The leaf of alpha's prefix is the node at the level's depth on alpha's path.
  pub prefix_leaf :
      (alpha : ℕ)
      → alpha
          / 2 ^ (last_log_domain_size d - log_domain_size d h)
          / 2 ^ (log_domain_size d h - tree_level d h)
        ≡ alpha / 2 ^ (last_log_domain_size d - tree_level d h)
  prefix_leaf alpha =
      div-div-eq-div-mul alpha (2 ^ (last_log_domain_size d - log_domain_size d h)) (2 ^ m)
      ∙ ap (λ t. alpha / t) (sym (pow-add (last_log_domain_size d - log_domain_size d h) m))
      ∙ ap (λ t. alpha / 2 ^ t) (omega (arith, level.level_fits, level.domain_fits))

  -- A point in the domain has its leaf in the tree.
  pub leaf_below :
      (x : ℕ)
      → x < 2 ^ log_domain_size d h
      → x / 2 ^ (log_domain_size d h - tree_level d h) < 2 ^ tree_level d h
  leaf_below x below =
      quotient_below (log_domain_size d h) (tree_level d h) x level.level_fits below

  pub index_below : (x : ℕ) → x % 2 ^ (log_domain_size d h - tree_level d h) < elements_per_block t
  index_below x =
      let positive = one-le-pow m 2 (omega arith) in
      omega (arith, level.block_fits, mod-lt x positive)

  pub in_domain :
      (xs : List ℕ)
      → all_in_domain (max_evaluation_point (log_domain_size d h)) xs ≡ true
      → All (λ x. x < 2 ^ log_domain_size d h) xs
  unfolding all_in_domain
  in_domain [] e = tt
  in_domain (x ∷ xs) e =
      let (here, there) = both_true (leb x (max_evaluation_point (log_domain_size d h))) _ e in
      (
        below_max (log_domain_size d h) x (omega (arith, level.domain_fits, level.bounded)) here,
        in_domain xs there,
      )
