-- ===== src/Dpf/Until/First.antt =====
-- The first call of `EvaluateUntil` on a context returns what `EvaluateAt` returns for all points.
use mathlib.Core.List.{append-nil}
use native.Mathlib.Nat.{one-le-pow}
use distributed_point_functi.Base.{
  ℕ, zero, suc, ◌+◌, ◌-◌, ◌*◌, ◌/◌, ◌%◌, ◌^◌, ◌≤◌, ◌<◌, ◌≡◌, refl, ap, ap₂, ◌∙◌, false, List, [],
  ◌∷◌, map, some, ok, ltb, length, take, arith, All, upto, concat_map, map-div-mod, concat_map-map,
  length-take, pow-add, lt→ltb, >>=-eq-ok, lt_of_guard, guard, invalid_argument, eq_of_guard, ◌==◌,
  Status, not, ◌>>=◌,
}
use distributed_point_functi.Aes.Hash.{Prg}
use distributed_point_functi.Proto.{DpfKey, CorrectionWord}
use distributed_point_functi.EvaluatePrg.{Lane}
use distributed_point_functi.EvaluatePrg.Walk.{walk}
use distributed_point_functi.Values.{ElementType, Element}
use distributed_point_functi.Values.Bytes.Enough.{bytes_read}
use distributed_point_functi.Values.Correction.{values_to_array}
use distributed_point_functi.Security.{Double}
use distributed_point_functi.Validator.{is_empty, validate_dpf_key, has_seed}
use distributed_point_functi.Validator.Create.{ProtoValidator}
use distributed_point_functi.Validator.Context.{
  EvaluationContext, validate_evaluation_context, validate_optional_key, all_parameters_match,
}
use distributed_point_functi.Dpf.{Dpf, parse, log_domain_size, tree_level, blocks}
use distributed_point_functi.Dpf.Evaluate.{
  hash_inputs, hash_expanded_seeds, value_correction_at, evaluate_at, tree_index, block_index,
}
use distributed_point_functi.Dpf.Expand.{expand_seeds}
use distributed_point_functi.Dpf.Expand.Subtree.{expand_seeds_lem, expansion_of}
use distributed_point_functi.Dpf.Context.{
  expand_and_update_context, with_previous_level, root_seed, root_control_bit, subspan,
}
use distributed_point_functi.Dpf.Correct.Level.{
  IsLevel, inner, last, tree_index_lem, block_index_lem,
}
use distributed_point_functi.Dpf.Correct.Points.{evaluate_seeds-leaves}
use distributed_point_functi.Dpf.Total.Evaluates.{all_in_domain-true}
use distributed_point_functi.Dpf.Until.{
  with_key, add_prefixes, expand_until, evaluate_until, check_until,
}
use distributed_point_functi.Dpf.Until.Points.{output_at, correct_expansion_lem, correct_values_lem}

>>=-at {ℓ κ} :
    {A : Type ℓ} {B : Type κ} {first : Status A} (rest : A → Status B) {value : A}
    {result : Status B}
    → first ≡ ok value
    → rest value ≡ result
    → (first >>= rest) ≡ result
>>=-at rest e e' = ap (λ s. s >>= rest) e ∙ e'

is_empty-upto : (s n : ℕ) → 0 < n → is_empty (upto s n) ≡ false
is_empty-upto s zero h = absurd (omega arith)
is_empty-upto s (suc n) h = refl

upto_below : (s n : ℕ) (b : ℕ) → s + n ≤ b → All (λ x. x < b) (upto s n)
upto_below s zero b h = tt
upto_below s (suc n) b h = (omega arith, upto_below (suc s) n b (omega arith))

module _ (d : Dpf) (l : Prg d.prg_left) (r : Prg d.prg_right) (v : Prg d.prg_value)
    (t : ElementType) (h : ℕ) (level : IsLevel d t h) (enough : bytes_read t ≤ 16 * blocks d h)
    (key : DpfKey) (ints : List Element)
    (reads : values_to_array t (value_correction_at d key h) ≡ ok ints)
    (deep : tree_level d h ≤ length key.correction_words) where
  abbrev root : Lane
  root = record { seed = root_seed key; control_bit = root_control_bit key }

  abbrev words : List CorrectionWord
  words = take (tree_level d h) key.correction_words

  abbrev leaf : ℕ → Lane
  leaf p = walk l.block r.block (map parse words) p root

  abbrev out : ℕ → ℕ → Element
  out p = output_at v.block t key.party (blocks d h) ints enough (leaf p)

  abbrev count : ℕ
  count = 2 ^ (log_domain_size d h - tree_level d h)

  abbrev blocks_of_outputs : List Element
  blocks_of_outputs = concat_map (λ p. map (out p) (upto 0 count)) (upto 0 (2 ^ tree_level d h))

  expansion_lem :
      expand_seeds d (expansion_of (root ∷ [])) (subspan key.correction_words 0 (tree_level d h))
      ≡ ok (expansion_of (map leaf (upto 0 (2 ^ tree_level d h))))
  expansion_lem =
      ap (λ k. expand_seeds d (expansion_of (root ∷ [])) (take k key.correction_words))
        {x = tree_level d h - 0} {y = tree_level d h} (omega arith)
      ∙ expand_seeds_lem d l r words (root ∷ []) (
          omega (
            arith,
            length-take (tree_level d h) key.correction_words,
            level.level_fits,
            level.domain_fits,
            level.bounded,
          ))
      ∙ ap (λ ns. ok (expansion_of ns)) (append-nil (map leaf (upto 0 (2 ^ length words))))
      ∙ ap (λ k. ok (expansion_of (map leaf (upto 0 (2 ^ k)))))
          (length-take (tree_level d h) key.correction_words ∙ omega arith)

  pub expand_until_first {ℓ} :
      {W : Type ℓ} ⦃double : Double W⦄ (ctx : EvaluationContext W)
      → expand_until d t key h [] ctx ≡ ok (blocks_of_outputs, with_previous_level ctx h)
  unfolding expand_until expand_and_update_context add_prefixes hash_expanded_seeds
  expand_until_first ctx =
      rw
        (
          expansion_lem,
          v.evaluates (
              hash_inputs (blocks d h)
                (map (λ n. n.seed) (map leaf (upto 0 (2 ^ tree_level d h))))),
          reads,
          correct_expansion_lem v.block t key.party (blocks d h) ints enough count
              (map leaf (upto 0 (2 ^ tree_level d h))),
        )
        (ap (λ os. ok (os, with_previous_level ctx h))
          (concat_map-map
            (λ (n : Lane).
              map (output_at v.block t key.party (blocks d h) ints enough n) (upto 0 count))
            leaf (upto 0 (2 ^ tree_level d h))))

  -- The same outputs, point by point.
  all_points :
      map (λ x. out (tree_index d t h x) (block_index d t h x)) (upto 0 (2 ^ log_domain_size d h))
      ≡ blocks_of_outputs
  all_points =
      ap₂ (λ (f g : ℕ → ℕ). map (λ x. out (f x) (g x)) (upto 0 (2 ^ log_domain_size d h)))
        (λ i x. tree_index_lem d t h level x i) (λ i x. block_index_lem d t h level x i)
      ∙ ap₂ (λ (s n : ℕ). map (λ x. out (x / count) (x % count)) (upto s n)) {x = 0} {y = 0 * count}
          (omega arith) size
      ∙ map-div-mod out count (2 ^ tree_level d h) 0
          (one-le-pow (log_domain_size d h - tree_level d h) 2 (omega arith))
    where
      size : 2 ^ log_domain_size d h ≡ 2 ^ tree_level d h * count
      size =
          ap (◌^◌ 2) {x = log_domain_size d h}
            {y = tree_level d h + (log_domain_size d h - tree_level d h)}
            (omega (arith, level.level_fits))
          ∙ pow-add (tree_level d h) (log_domain_size d h - tree_level d h)

  evaluate_at_all :
      validate_dpf_key d.hierarchy_to_tree d.tree_levels_needed key ≡ ok tt
      → h < length d.parameters
      → evaluate_at d t key h (upto 0 (2 ^ log_domain_size d h)) ≡ ok blocks_of_outputs
  unfolding evaluate_at hash_expanded_seeds
  evaluate_at_all valid inside =
      rw
        (
          lt→ltb h (length d.parameters) inside,
          all_in_domain-true (log_domain_size d h) (upto 0 (2 ^ log_domain_size d h))
              (omega (arith, level.domain_fits, level.bounded))
              (upto_below 0 (2 ^ log_domain_size d h) (2 ^ log_domain_size d h) (omega arith)),
          valid,
          is_empty-upto 0 (2 ^ log_domain_size d h)
              (one-le-pow (log_domain_size d h) 2 (omega arith)),
          reads,
        )
        (>>=-at _
          (evaluate_seeds-leaves d l r words root (tree_index d t h)
            (upto 0 (2 ^ log_domain_size d h)))
          (>>=-at _
            (v.evaluates (
              hash_inputs (blocks d h)
                (map (λ x. (leaf (tree_index d t h x)).seed) (upto 0 (2 ^ log_domain_size d h)))))
            (correct_values_lem v.block t key.party (blocks d h) ints enough
                (λ x. leaf (tree_index d t h x)) (block_index d t h)
                (upto 0 (2 ^ log_domain_size d h))
              ∙ ap ok all_points)))

-- What the checks of `EvaluateUntil` say of the key.
module _ {ℓ} {W : Type ℓ} ⦃double : Double W⦄ (d : Dpf) (validator : ProtoValidator W)
    (t : ElementType) (h : ℕ) (ctx : EvaluationContext W) (key : DpfKey)
    (hierarchy : validator.hierarchy_to_tree ≡ d.hierarchy_to_tree)
    (needed : validator.tree_levels_needed ≡ d.tree_levels_needed)
    (has_key : ctx.key ≡ some key) where
  checked_key :
      check_until d validator t h [] ctx ≡ ok tt
      → (validate_dpf_key d.hierarchy_to_tree d.tree_levels_needed key ≡ ok tt)
        × (h < length d.parameters)
  unfolding check_until validate_evaluation_context validate_optional_key
  checked_key e =
      let (_, e1, e2) = >>=-eq-ok (validate_evaluation_context validator ctx) _ e in
      let (_, e3, _) = >>=-eq-ok (guard (ltb h (length d.parameters)) invalid_argument) _ e2 in
      let (_, _, e4) =
        >>=-eq-ok (guard (length ctx.parameters == length validator.parameters) invalid_argument) _
          e1 in
      let (_, _, e5) = >>=-eq-ok (all_parameters_match validator.parameters ctx.parameters) _ e4 in
      let (_, e6, _) =
        >>=-eq-ok
          (validate_optional_key validator.hierarchy_to_tree validator.tree_levels_needed ctx.key) _
          e5 in
      (
        rw (hierarchy, needed, has_key) at e6,
        lt_of_guard h (length d.parameters) invalid_argument e3,
      )

  words_size :
      validate_dpf_key d.hierarchy_to_tree d.tree_levels_needed key ≡ ok tt
      → length key.correction_words ≡ d.tree_levels_needed - 1
  unfolding validate_dpf_key
  words_size e =
      let (_, _, e1) = >>=-eq-ok (guard (has_seed key.seed) invalid_argument) _ e in
      let (_, _, e2) =
        >>=-eq-ok (guard (not (is_empty key.last_level_value_correction)) invalid_argument) _ e1 in
      let (_, e3, _) =
        >>=-eq-ok (guard (length key.correction_words == d.tree_levels_needed - 1) invalid_argument)
          _ e2 in
      eq_of_guard (length key.correction_words) (d.tree_levels_needed - 1) invalid_argument e3

  -- Let the PRGs hash single blocks, the validator have the object's maps, level h be set up with
  -- enough blocks for t, and the key of the context have a readable value correction there. If the
  -- checks of the first call of `EvaluateUntil` on the context pass, then it succeeds, it moves the
  -- context to level h, and its outputs are those that `EvaluateAt` returns for the key at all points
  -- of the level's domain in order.
  pub evaluate_until-evaluate_at :
      (l : Prg d.prg_left) (r : Prg d.prg_right) (v : Prg d.prg_value) (ints : List Element)
      → IsLevel d t h
      → bytes_read t ≤ 16 * blocks d h
      → values_to_array t (value_correction_at d key h) ≡ ok ints
      → check_until d validator t h [] ctx ≡ ok tt
      → (outputs : List Element) × (evaluate_until d validator t h [] ctx
          ≡ ok (outputs, with_previous_level ctx h))
        × (evaluate_at d t key h (upto 0 (2 ^ log_domain_size d h)) ≡ ok outputs)
  unfolding evaluate_until
  evaluate_until-evaluate_at l r v ints level enough reads checked =
      let (valid, inside) = checked_key checked in
      let deep : tree_level d h ≤ length key.correction_words =
        omega (arith, words_size valid, place_deep level) in
      (
        blocks_of_outputs d l r v t h level enough key ints reads deep,
        >>=-at _ checked (
            ap (λ k. with_key k (λ key. expand_until d t key h [] ctx)) has_key
            ∙ expand_until_first d l r v t h level enough key ints reads deep ctx),
        evaluate_at_all d l r v t h level enough key ints reads deep valid inside,
      )
    where
      place_deep : IsLevel d t h → tree_level d h ≤ d.tree_levels_needed - 1
      place_deep level = elim level.place [
        | inner before above found ↦ omega arith
        | last here at_end ↦ omega arith
      ]
