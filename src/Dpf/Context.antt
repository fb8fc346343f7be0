-- ===== src/Dpf/Context.antt =====
-- Partial evaluations (dpf/distributed_point_function.cc): `ComputePartialEvaluations` and
-- `ExpandAndUpdateContext`, on a context that has a key.
use distributed_point_functi.Base.{
  ℕ, ◌-◌, ◌/◌, ◌^◌, Bool, not, xor, ◌&&◌, List, [], ◌∷◌, map, Option, none, some, Status, ok, err,
  invalid_argument, crash, ◌>>=◌, ◌>>◌, guard, ltb, leb, ◌==◌, if◌then◌else◌, length, take, drop,
  replicate,
}
use distributed_point_functi.Proto.{
  DpfKey, CorrectionWord, PartialEvaluation, block_or_zero, block_to_uint128, uint128_to_block,
}
use distributed_point_functi.EvaluatePrg.{Lane}
use distributed_point_functi.Validator.{is_empty}
use distributed_point_functi.Validator.Context.{EvaluationContext}
use distributed_point_functi.Dpf.{Dpf, tree_level, evaluate_seeds}
use distributed_point_functi.Dpf.Expand.{DpfExpansion, expand_seeds}

-- `previous_partial_evaluations`: a map from prefixes to seeds and control bits.
unfoldable pub find_prefix : ℕ → List (ℕ × Lane) → Option Lane
find_prefix prefix [] = none
find_prefix prefix ((p, n) ∷ m) = if p == prefix then some n else find_prefix prefix m

abbrev pub same_lane : Lane → Lane → Bool
same_lane a b = (a.seed == b.seed) && not (xor a.control_bit b.control_bit)

-- `try_emplace`, and the test of what is at the prefix afterwards.
unfoldable pub insert_prefix : ℕ → Lane → List (ℕ × Lane) → Status (List (ℕ × Lane))
unfolding find_prefix
insert_prefix prefix value m = elim (find_prefix prefix m) [
  | none ↦ ok ((prefix, value) ∷ m)
  | some there ↦ (do guard (same_lane there value) invalid_argument; ok m)
]

unfoldable pub parse_partial_evaluations :
    List PartialEvaluation → List (ℕ × Lane) → Status (List (ℕ × Lane))
unfolding insert_prefix
parse_partial_evaluations [] m = ok m
parse_partial_evaluations (e ∷ es) m = do
  m' ←
      insert_prefix (block_to_uint128 e.prefix)
        (record { seed = block_to_uint128 e.seed; control_bit = e.control_bit }) m
  parse_partial_evaluations es m'

-- The loop that selects the partial evaluations for the prefixes.
unfoldable pub select_prefixes : ℕ → List ℕ → List (ℕ × Lane) → Status (List Lane)
unfolding find_prefix
select_prefixes levels [] m = ok []
select_prefixes levels (p ∷ ps) m = do
  n ← (elim (find_prefix (if ltb levels 128 then p / 2 ^ levels else 0) m) [
    | none ↦ err invalid_argument
    | some n ↦ ok n
  ])
  ns ← select_prefixes levels ps m
  ok (n ∷ ns)

abbrev pub expansion_from : List Lane → DpfExpansion
expansion_from ns = record {
  seeds = map (λ n. n.seed) ns;
  control_bits = map (λ n. n.control_bit) ns;
}

-- The nodes that are written to the context.
unfoldable pub partial_evaluations_for : List ℕ → List ℕ → List Bool → List PartialEvaluation
partial_evaluations_for (p ∷ ps) (s ∷ ss) (t ∷ ts) =
    record { prefix = uint128_to_block p; seed = uint128_to_block s; control_bit = t }
    ∷ partial_evaluations_for ps ss ts
partial_evaluations_for _ _ _ = []

-- `correction_words.subspan(start, stop - start)`.
abbrev pub subspan : List CorrectionWord → ℕ → ℕ → List CorrectionWord
subspan words start stop = take (stop - start) (drop start words)

abbrev pub root_seed : DpfKey → ℕ
root_seed key = block_to_uint128 (block_or_zero key.seed)

abbrev pub root_control_bit : DpfKey → Bool
root_control_bit key = not (key.party == 0)

abbrev pub level_or_zero : Option ℕ → ℕ
level_or_zero none = 0
level_or_zero (some h) = h

-- Whether `hierarchy_to_tree_` has an element at a level.
abbrev pub has_tree_level : Dpf → Option ℕ → Bool
has_tree_level d none = Bool.false
has_tree_level d (some h) = ltb h (length d.hierarchy_to_tree)

module _ {ℓ} {W : Type ℓ} where
  abbrev pub with_partial_evaluations :
      EvaluationContext W → List PartialEvaluation → ℕ → EvaluationContext W
  with_partial_evaluations ctx partials h = record {
    parameters = ctx.parameters;
    key = ctx.key;
    previous_hierarchy_level = ctx.previous_hierarchy_level;
    partial_evaluations = partials;
    partial_evaluations_level = some h;
  }

  abbrev pub with_previous_level : EvaluationContext W → ℕ → EvaluationContext W
  with_previous_level ctx h = record {
    parameters = ctx.parameters;
    key = ctx.key;
    previous_hierarchy_level = some h;
    partial_evaluations = ctx.partial_evaluations;
    partial_evaluations_level = ctx.partial_evaluations_level;
  }

  -- Whether there are partial evaluations from a tree level that is not below.
  abbrev pub from_ctx : Dpf → ℕ → EvaluationContext W → Bool
  from_ctx d h ctx =
      not (is_empty ctx.partial_evaluations)
      && leb (tree_level d (level_or_zero ctx.partial_evaluations_level)) (tree_level d h)

  abbrev pub start_level : Dpf → ℕ → EvaluationContext W → ℕ
  start_level d h ctx =
      if from_ctx d h ctx then tree_level d (level_or_zero ctx.partial_evaluations_level) else 0

  -- The partial evaluations that the prefixes start from. `hierarchy_to_tree_` is read at their level
  -- also where there are none.
  unfoldable pub starting_points :
      Dpf → DpfKey → List ℕ → ℕ → EvaluationContext W → Status DpfExpansion
  unfolding parse_partial_evaluations select_prefixes
  starting_points d key prefixes h ctx =
      let selected = (do
        m ← parse_partial_evaluations ctx.partial_evaluations []
        ns ← select_prefixes (tree_level d h - start_level d h ctx) prefixes m
        ok (expansion_from ns)) in
      let fresh : Status DpfExpansion = ok (record {
        seeds = replicate (length prefixes) (root_seed key);
        control_bits = replicate (length prefixes) (root_control_bit key);
      }) in
      (do
        guard (has_tree_level d ctx.partial_evaluations_level) crash
        if from_ctx d h ctx then selected else fresh)

  -- `ComputePartialEvaluations(prefixes, h, update_ctx, ctx)`, with `ctx.key()`.
  unfoldable pub compute_partial_evaluations :
      Dpf
      → DpfKey
      → List ℕ
      → ℕ
      → Bool
      → EvaluationContext W
      → Status (DpfExpansion × EvaluationContext W)
  unfolding starting_points
  compute_partial_evaluations d key prefixes h update_ctx ctx = do
    partial ← starting_points d key prefixes h ctx
    (seeds, control_bits) ←
        evaluate_seeds d partial.seeds partial.control_bits prefixes
          (subspan key.correction_words (start_level d h ctx) (tree_level d h))
    let written = partial_evaluations_for prefixes seeds control_bits
    ok (
      record { seeds = seeds; control_bits = control_bits },
      with_partial_evaluations ctx (if update_ctx then written else []) h,
    )

  -- `selected_partial_evaluations`. There are prefixes only in a context that was evaluated up to a
  -- previous level.
  unfoldable pub selected_partial_evaluations :
      Dpf → DpfKey → ℕ → List ℕ → EvaluationContext W → Status (DpfExpansion × EvaluationContext W)
  unfolding compute_partial_evaluations
  selected_partial_evaluations d key h [] ctx =
      ok (record { seeds = root_seed key ∷ []; control_bits = root_control_bit key ∷ [] }, ctx)
  selected_partial_evaluations d key h (p ∷ ps) ctx =
      compute_partial_evaluations d key (p ∷ ps) (level_or_zero ctx.previous_hierarchy_level)
        (ltb h (length d.parameters - 1)) ctx

  -- The correction words from the previous level, or from the root.
  abbrev pub words_between : Dpf → DpfKey → ℕ → List ℕ → EvaluationContext W → List CorrectionWord
  words_between d key h prefixes ctx =
      let previous = tree_level d (level_or_zero ctx.previous_hierarchy_level) in
      subspan key.correction_words (if is_empty prefixes then 0 else previous) (tree_level d h)

  -- `ExpandAndUpdateContext(h, prefixes, ctx)`.
  unfoldable pub expand_and_update_context :
      Dpf → DpfKey → ℕ → List ℕ → EvaluationContext W → Status (DpfExpansion × EvaluationContext W)
  unfolding selected_partial_evaluations
  expand_and_update_context d key h prefixes ctx = do
    (partial, ctx') ← selected_partial_evaluations d key h prefixes ctx
    expansion ← expand_seeds d partial (words_between d key h prefixes ctx)
    ok (expansion, with_previous_level ctx' h)
