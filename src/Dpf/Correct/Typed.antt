-- ===== src/Dpf/Correct/Typed.antt =====
-- The range of what `EvaluateAt` (dpf/distributed_point_function.h) returns, for any key.
use native.Mathlib.Nat.{one-le-pow}
use distributed_point_functi.Base.{
  ℕ, zero, suc, ◌*◌, ◌≡◌, Bool, true, false, List, [], ◌∷◌, All, take, drop, arith, Ensures,
  >>=-Ensures, ok-Ensures, ok, ltb, ◌==◌, length, guard, get_or, invalid_argument, map,
  if◌then◌else◌, not, replicate, Status,
}
use distributed_point_functi.Proto.{DpfKey, Value, block_to_uint128, block_or_zero}
use distributed_point_functi.Validator.{is_empty, validate_dpf_key}
use distributed_point_functi.Values.{
  ElementType, ElementTypes, Element, HasType, HasTypes, IsSupported, AreSupported, uint_supported,
  mod_int_supported, xor_uint_supported, tuple_supported, none_supported, also_supported, default,
  defaults, neg, is_uint, is_mod_int, is_xor_uint, is_tuple, at_end, and_then,
}
use distributed_point_functi.Values.Group.{add-HasType, neg-HasType}
use distributed_point_functi.Values.Convert.RoundTrip.{from_value-HasType}
use distributed_point_functi.Values.Bytes.{bytes_of_blocks}
use distributed_point_functi.Values.Bytes.Typed.{
  bytes_of_blocks-IsByte, convert_bytes_to_array_of-IsArray,
}
use distributed_point_functi.Values.Correction.{from_each_value, values_to_array, correct_output}
use distributed_point_functi.Dpf.{Dpf, blocks, log_domain_size, tree_level, evaluate_seeds}
use distributed_point_functi.Dpf.Evaluate.{
  correct_values, evaluate_at, all_in_domain, max_evaluation_point, value_correction_at, tree_index,
  block_index, hash_expanded_seeds,
}

mutual
  unfolding default

  pub default-typed : {t : ElementType} → IsSupported t → HasType t (default t)
  default-typed (uint_supported {size}) = is_uint (one-le-pow (8 * size) 2 (omega arith))
  default-typed (mod_int_supported p h) = is_mod_int p h
  default-typed (xor_uint_supported {size}) = is_xor_uint (one-le-pow (8 * size) 2 (omega arith))
  default-typed (tuple_supported ps) = is_tuple (defaults-typed ps)

  defaults-typed : {ts : ElementTypes} → AreSupported ts → HasTypes ts (defaults ts)
  defaults-typed none_supported = at_end
  defaults-typed (also_supported p ps) = and_then (default-typed p) (defaults-typed ps)

module _ (t : ElementType) (supported : IsSupported t) where
  pub get_or-default-HasType :
      (i : ℕ) (xs : List Element) → All (HasType t) xs → HasType t (get_or xs i (default t))
  get_or-default-HasType i [] all = default-typed supported
  get_or-default-HasType zero (x ∷ xs) all = all.0
  get_or-default-HasType (suc i) (x ∷ xs) all = get_or-default-HasType i xs all.1

  from_each_value-HasType : (vs : List Value) → Ensures (All (HasType t)) (from_each_value t vs)
  unfolding from_each_value
  from_each_value-HasType [] = ok-Ensures tt
  from_each_value-HasType (v ∷ vs) = >>=-Ensures (λ e read. >>=-Ensures (λ es reads.
      ok-Ensures {a = e ∷ es}
        (from_value-HasType v supported read, (from_each_value-HasType vs).holds es reads)))

  values_to_array-HasType : (vs : List Value) → Ensures (All (HasType t)) (values_to_array t vs)
  unfolding values_to_array
  values_to_array-HasType vs = >>=-Ensures (λ _ _. from_each_value-HasType vs)

  negated-HasType : (b : Bool) {u : Element} → HasType t u → HasType t (if b then neg t u else u)
  negated-HasType true p = neg-HasType p
  negated-HasType false p = p

  correct_output-HasType :
      (control_bit : Bool) (party : ℕ) {w e : Element}
      → HasType t w
      → HasType t e
      → HasType t (correct_output t control_bit party w e)
  unfolding correct_output
  correct_output-HasType true party p q = negated-HasType (party == 1) (add-HasType q p)
  correct_output-HasType false party p q = negated-HasType (party == 1) q

  correct_values-HasType :
      (party k : ℕ) (ints : List Element) (indices : List ℕ) (control_bits : List Bool)
      (hashed : List ℕ)
      → All (HasType t) ints
      → Ensures (All (HasType t)) (correct_values t party k ints indices control_bits hashed)
  unfolding correct_values
  correct_values-HasType party k ints (i ∷ indices) (c ∷ control_bits) hashed all =
      >>=-Ensures (λ es expands. >>=-Ensures (λ rest corrects. ok-Ensures {a = _ ∷ rest} (
        correct_output-HasType c party (get_or-default-HasType i ints all) (
            get_or-default-HasType i es
              (convert_bytes_to_array_of-IsArray t (bytes_of_blocks (take k hashed)) supported
                (bytes_of_blocks-IsByte (take k hashed)) expands).1),
        (correct_values-HasType party k ints indices control_bits (drop k hashed) all).holds rest
            corrects,
      )))
  correct_values-HasType party k ints [] control_bits hashed all = ok-Ensures tt
  correct_values-HasType party k ints (i ∷ indices) [] hashed all = ok-Ensures tt

  either_Ensures :
      {xs : List Element} (b : Bool) {s : Status (List Element)}
      → Ensures (All (HasType t)) (ok xs)
      → Ensures (All (HasType t)) s
      → Ensures (All (HasType t)) (if b then ok xs else s)
  either_Ensures true p q = p
  either_Ensures false p q = q

  evaluate_at-Ensures :
      (d : Dpf) (key : DpfKey) (h : ℕ) (points : List ℕ)
      → Ensures (All (HasType t)) (evaluate_at d t key h points)
  unfolding evaluate_at
  evaluate_at-Ensures d key h points =
      >>=-Ensures {first = guard (ltb h (length d.parameters)) invalid_argument} (λ _ _.
        >>=-Ensures
          {first = guard (all_in_domain (max_evaluation_point (log_domain_size d h)) points)
            invalid_argument}
          (λ _ _.
            >>=-Ensures {first = validate_dpf_key d.hierarchy_to_tree d.tree_levels_needed key}
              (λ _ _. either_Ensures (is_empty points) (ok-Ensures {a = []} tt) (
                >>=-Ensures {first = values_to_array t (value_correction_at d key h)} (λ ints reads.
                  >>=-Ensures
                    {first = evaluate_seeds d
                      (replicate (length points) (block_to_uint128 (block_or_zero key.seed)))
                      (replicate (length points) (not (key.party == 0)))
                      (map (tree_index d t h) points) (take (tree_level d h) key.correction_words)}
                    (λ (seeds, control_bits) _.
                      >>=-Ensures {first = hash_expanded_seeds d h seeds} (λ hashed _.
                        correct_values-HasType key.party (blocks d h) ints
                          (map (block_index d t h) points) control_bits hashed
                          ((values_to_array-HasType (value_correction_at d key h)).holds ints
                            reads))))))))

  -- For a supported type, whatever `EvaluateAt` returns is objects in the range of the type, for any
  -- key and any points.
  pub evaluate_at-HasType :
      (d : Dpf) (key : DpfKey) (h : ℕ) (points : List ℕ) {outputs : List Element}
      → evaluate_at d t key h points ≡ ok outputs
      → All (HasType t) outputs
  evaluate_at-HasType d key h points e = (evaluate_at-Ensures d key h points).holds _ e
