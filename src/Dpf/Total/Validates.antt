-- ===== src/Dpf/Total/Validates.antt =====
-- The keys that key generation returns pass the validation of keys.
use distributed_point_functi.Base.{
  ℕ, suc, ◌-◌, ◌^◌, ◌<◌, ◌≡◌, refl, false, List, [], ◌∷◌, map, ok, ◌==◌, length, get_or, arith, inl,
  inr, ◌⊎◌, All, guard, invalid_argument, eq→==, if-same, le→ltb, lt→ltb, >>=-eq-ok, eq_of_guard,
}
use native.Mathlib.Nat.{one-le-pow}
use distributed_point_functi.Aes.Hash.{Prg}
use distributed_point_functi.Proto.{Value, DpfKey}
use distributed_point_functi.Values.{ElementType, Element}
use distributed_point_functi.Values.Bytes.{elements_per_block}
use distributed_point_functi.Values.Correction.{values_to_array}
use distributed_point_functi.Validator.{validate_levels, validate_dpf_key, is_empty}
use distributed_point_functi.Dpf.{Dpf, tree_level, log_domain_size}
use distributed_point_functi.Dpf.Generate.{key_of}
use distributed_point_functi.Dpf.Evaluate.{value_correction_at}
use distributed_point_functi.Dpf.Correct.Level.{inner, last}
use distributed_point_functi.Dpf.Correct.Keys.{Run}
use distributed_point_functi.Dpf.Correct.Shares.{parts}
use distributed_point_functi.Dpf.Total.{IsDpf}

module _ {ℓ κ} {A : Type ℓ} (P : A → Type κ) (d : A) where
  All-get_or : (xs : List A) → ((i : ℕ) → i < length xs → P (get_or xs i d)) → All P xs
  All-get_or [] h = tt
  All-get_or (x ∷ xs) h = (h 0 (omega arith), All-get_or xs (λ i below. h (suc i) (omega arith)))

-- A level whose correction is stored elsewhere, or is not empty.
abbrev Stored : ℕ → List (List Value) → ℕ → Type 0
Stored needed corrections t = (t ≡ needed - 1) ⊎ (is_empty (get_or corrections t []) ≡ false)

validate_levels-ok :
    (needed : ℕ) (corrections : List (List Value)) (ts : List ℕ)
    → All (Stored needed corrections) ts
    → validate_levels ts needed corrections ≡ ok tt
unfolding validate_levels
validate_levels-ok needed corrections [] h = refl
validate_levels-ok needed corrections (t ∷ ts) (inl here, h) =
    rw (eq→== t (needed - 1) here) (validate_levels-ok needed corrections ts h)
validate_levels-ok needed corrections (t ∷ ts) (inr stored, h) =
    rw (stored, validate_levels-ok needed corrections ts h) (if-same (t == needed - 1) (ok tt))

-- What `ValuesToArray` reads is not empty.
not_empty :
    (t : ElementType) (values : List Value) {es : List Element}
    → 0 < elements_per_block t
    → values_to_array t values ≡ ok es
    → is_empty values ≡ false
unfolding values_to_array
not_empty t [] positive e =
    let (_, g, _) = >>=-eq-ok (guard (0 == elements_per_block t) invalid_argument) _ e in
    absurd (omega (arith, eq_of_guard 0 (elements_per_block t) invalid_argument g))
not_empty t (v ∷ values) positive e = refl

module _ (d : Dpf) (l : Prg d.prg_left) (r : Prg d.prg_right) (v : Prg d.prg_value)
    (types : ℕ → ElementType) (setup : IsDpf d types) (alpha seed_0 seed_1 : ℕ) (beta : List Value)
    (small : alpha < 2 ^ 128) (key_0 key_1 : DpfKey)
    (run : Run d l r alpha beta seed_0 seed_1 key_0 key_1) where
  abbrev stored_key : ℕ → ℕ → DpfKey
  stored_key party seed = key_of party seed run.st.words_0 run.values

  stored_value :
      (h : ℕ)
      → h < length d.parameters
      → is_empty (value_correction_at d (stored_key 0 seed_0) h) ≡ false
  stored_value h inside =
      let level = setup.levels h inside in
      not_empty (types h) _
        (omega (
          arith,
          level.block_fits,
          one-le-pow (log_domain_size d h - tree_level d h) 2 (omega arith),
        ))
        (parts d l r v (types h) h level alpha seed_0 seed_1 small beta key_0 key_1
          run).reads_values

  Stored-level :
      (h : ℕ)
      → h < length d.hierarchy_to_tree
      → Stored d.tree_levels_needed (map (λ w. w.value_correction) run.st.words_0) (tree_level d h)
  unfolding value_correction_at
  Stored-level h inside =
      let level = setup.levels h (omega (arith, setup.same_size)) in
      elim level.place [
        | inner before above found ↦ inr (
            rw (lt→ltb h (length d.parameters - 1) before) at
              (stored_value h (omega (arith, setup.same_size))))
        | last here deep ↦ inl deep
      ]

  last_stored : is_empty run.values ≡ false
  unfolding value_correction_at
  last_stored =
      let final = length d.parameters - 1 in
      rw (le→ltb (length d.parameters - 1) (length d.parameters - 1) (omega arith)) at
        (stored_value (length d.parameters - 1) (omega (arith, setup.some_level)))

  -- `ValidateDpfKey` accepts the keys of both parties.
  pub validate_dpf_key-ok :
      (party seed : ℕ)
      → validate_dpf_key d.hierarchy_to_tree d.tree_levels_needed (stored_key party seed) ≡ ok tt
  unfolding validate_dpf_key
  validate_dpf_key-ok party seed =
      rw (last_stored, eq→== (length run.st.words_0) (d.tree_levels_needed - 1) run.tree.size)
        (validate_levels-ok d.tree_levels_needed (map (λ w. w.value_correction) run.st.words_0)
          d.hierarchy_to_tree
          (All-get_or (Stored d.tree_levels_needed (map (λ w. w.value_correction) run.st.words_0)) 0
            d.hierarchy_to_tree Stored-level))
