-- ===== src/Dcf/Levels.antt =====
-- The hierarchy levels of a DCF (dcf/distributed_comparison_function.h and .cc): at the prefix of
-- each length, the outputs of the two DPF keys add up to beta if the prefix is that of alpha and the
-- next bit of alpha is set, and to zero otherwise.
use distributed_point_functi.Base.{
  ℕ, suc, ◌-◌, ◌/◌, ◌^◌, ◌<◌, ◌≡◌, refl, sym, ap, ap₂, ◌∙◌, subst, List, [], ◌∷◌, ok, ◌==◌,
  if◌then◌else◌, length, get_or, arith, ok-injective, Bool, true, false, test_bit, div-pow-suc, All,
  length-map,
}
use native.Mathlib.Nat.{pow-suc}
use distributed_point_functi.Aes.Hash.{Prg}
use distributed_point_functi.Proto.{
  DpfKey, Value, ValueType, type_not_set, value_not_set, get_or_type,
}
use distributed_point_functi.Values.{ElementType, Element, HasType, default, add, IsSupported}
use distributed_point_functi.Values.Convert.{to_value, to_value_type, from_value}
use distributed_point_functi.Values.Convert.RoundTrip.{from_value-round_trip}
use distributed_point_functi.Validator.Accepts.{to_value-validated}
use distributed_point_functi.Validator.{validate_value}
use distributed_point_functi.Dpf.{log_domain_size, last_log_domain_size, value_type}
use distributed_point_functi.Dpf.Generate.{generate_keys_incremental, validate_betas, value_types}
use distributed_point_functi.Dpf.Evaluate.{evaluate_at}
use distributed_point_functi.Dpf.Correct.Points.{sums}
use distributed_point_functi.Dpf.Correct.Typed.{
  default-typed, evaluate_at-HasType, get_or-default-HasType,
}
use distributed_point_functi.Dpf.Total.{IsDpf}
use distributed_point_functi.Dpf.Total.Evaluates.{AreShared, evaluate_at-total}
use distributed_point_functi.Dcf.{Dcf, dpf_values}
use distributed_point_functi.Dcf.Zero.{IsXorFree, length-dpf_values, dpf_values-object}

-- A DCF on n bits with outputs of type t, whose DPF is set up with a level for each bit.
pub record IsDcf (d : Dcf) (t : ElementType) (n : ℕ) : Type 0 where
  pub free : IsXorFree t
  pub supported : IsSupported t
  pub positive : 0 < n
  pub bounded : n < 128
  pub bits : d.log_domain_size ≡ n
  pub setup : IsDpf d.dpf (λ _. t)
  pub size : length d.dpf.parameters ≡ n
  pub log_at : (i : ℕ) → i < n → log_domain_size d.dpf i ≡ i
  pub typed : (i : ℕ) → i < n → value_type d.dpf i ≡ to_value_type t
  pub left : Prg d.dpf.prg_left
  pub right : Prg d.dpf.prg_right
  pub value : Prg d.dpf.prg_value

-- What `EvaluateAt` returns for one point on level i.
abbrev pub output_at : ElementType → List Element → Element
output_at t outputs = get_or outputs 0 (default t)

-- The value of level i.
abbrev pub value_at : ElementType → ℕ → ℕ → Element → ℕ → Element
value_at t n alpha b i = if test_bit alpha (n - i - 1) then b else default t

-- Both keys have outputs at any prefix p of i bits, and the outputs are shares of the level's value.
abbrev pub LevelsShared : Dcf → ElementType → ℕ → ℕ → Element → DpfKey → DpfKey → Type 0
LevelsShared d t n alpha b key_0 key_1 =
    (i p : ℕ)
    → i < n
    → p < 2 ^ i
    → (out_0 out_1 : List Element) × (evaluate_at d.dpf t key_0 i (p ∷ []) ≡ ok out_0)
      × (evaluate_at d.dpf t key_1 i (p ∷ []) ≡ ok out_1)
      × HasType t (output_at t out_0)
      × HasType t (output_at t out_1)
      × (add t (output_at t out_0) (output_at t out_1)
          ≡ (if p == alpha / 2 ^ (n - i) then value_at t n alpha b i else default t))

validate_betas-each :
    (ts : List ValueType) (beta : List Value)
    → length ts ≡ length beta
    → ((i : ℕ)
        → i < length ts
        → validate_value (get_or ts i type_not_set) (get_or beta i value_not_set) ≡ ok tt)
    → validate_betas ts beta ≡ ok tt
unfolding validate_betas
validate_betas-each [] beta e h = refl
validate_betas-each (t ∷ ts) [] e h = refl
validate_betas-each (t ∷ ts) (b ∷ bs) e h =
    rw (h 0 (omega arith))
      (validate_betas-each ts bs (omega arith) (λ i below. h (suc i) (omega arith)))

sum_of_one :
    (t : ElementType) (xs ys : List Element) {v : Element}
    → sums t xs ys ≡ v ∷ []
    → add t (output_at t xs) (output_at t ys) ≡ v
sum_of_one t (x ∷ xs) (y ∷ ys) e = cc
sum_of_one t [] ys e = cc
sum_of_one t (x ∷ xs) [] e = cc

selected-HasType :
    {t : ElementType} {b : Element} (c : Bool)
    → IsSupported t
    → HasType t b
    → HasType t (if c then b else default t)
selected-HasType true supported p = p
selected-HasType false supported p = default-typed supported

module _ (d : Dcf) (t : ElementType) (n : ℕ) (dcf : IsDcf d t n) (b : Element) (p : HasType t b)
    (alpha seed_0 seed_1 : ℕ) where
  abbrev values : List Value
  values = dpf_values n alpha (to_value t b) n 0

  reads_level :
      (i : ℕ) → i < n → from_value t (get_or values i value_not_set) ≡ ok (value_at t n alpha b i)
  reads_level i below =
      ap (from_value t) (dpf_values-object n alpha i dcf.free p below)
      ∙ from_value-round_trip (selected-HasType (test_bit alpha (n - i - 1)) dcf.supported p)

  length-value_types : length (value_types d.dpf) ≡ n
  length-value_types = length-map d.dpf.parameters (λ p. get_or_type p.value_type) ∙ dcf.size

  values-validated : validate_betas (value_types d.dpf) values ≡ ok tt
  values-validated =
      validate_betas-each (value_types d.dpf) values
        (length-value_types ∙ sym (length-dpf_values n alpha (to_value t b) n 0))
        (λ i below.
          ap₂ validate_value (dcf.typed i (omega (arith, length-value_types)))
            (dpf_values-object n alpha i dcf.free p (omega (arith, length-value_types)))
          ∙ to_value-validated (selected-HasType (test_bit alpha (n - i - 1)) dcf.supported p))

  last_log : last_log_domain_size d.dpf ≡ n - 1
  last_log =
      ap (log_domain_size d.dpf) {x = length d.dpf.parameters - 1} {y = n - 1}
        (omega (arith, dcf.size))
      ∙ dcf.log_at (n - 1) (omega (arith, dcf.positive))

  -- The last bit of alpha is not part of the DPF's input.
  half_below : alpha < 2 ^ n → alpha / 2 < 2 ^ last_log_domain_size d.dpf
  half_below below =
      subst (λ k. alpha / 2 < 2 ^ k) (sym last_log)
        (omega (
          arith,
          pow-suc 2 (n - 1),
          ap (λ k. 2 ^ k) {x = n} {y = suc (n - 1)} (omega (arith, dcf.positive)),
        ))

  level-AreShared :
      (i : ℕ) (points : List ℕ)
      → alpha < 2 ^ n
      → i < n
      → All (λ x. x < 2 ^ i) points
      → AreShared d.dpf (λ _. t) (alpha / 2) seed_0 seed_1 values (value_at t n alpha b i) i points
  level-AreShared i points below inside all =
      evaluate_at-total d.dpf dcf.left dcf.right dcf.value (λ _. t) dcf.setup (alpha / 2) seed_0
        seed_1 values (value_at t n alpha b) i points
        (length-dpf_values n alpha (to_value t b) n 0 ∙ sym dcf.size) values-validated
        (λ j h. reads_level j (omega (arith, dcf.size))) (half_below below)
        (omega (arith, dcf.size))
        (subst (λ k. All (λ x. x < 2 ^ k) points) (sym (dcf.log_at i inside)) all)

  prefix_of_alpha :
      (i : ℕ)
      → i < n
      → alpha / 2 / 2 ^ (last_log_domain_size d.dpf - log_domain_size d.dpf i) ≡ alpha / 2 ^ (n - i)
  prefix_of_alpha i inside =
      ap (λ k. alpha / 2 / 2 ^ k) {x = last_log_domain_size d.dpf - log_domain_size d.dpf i}
        {y = n - 1 - i} (omega (arith, last_log, dcf.log_at i inside))
      ∙ sym (div-pow-suc alpha (n - 1 - i))
      ∙ ap (λ k. alpha / 2 ^ k) {x = suc (n - 1 - i)} {y = n - i} (omega arith)

  -- The keys that are generated are shared on every level.
  pub generate_keys_incremental-LevelsShared :
      alpha < 2 ^ n
      → (key_0 key_1 : DpfKey) × (generate_keys_incremental d.dpf seed_0 seed_1 (alpha / 2) values
          ≡ ok (key_0, key_1))
        × LevelsShared d t n alpha b key_0 key_1
  generate_keys_incremental-LevelsShared below =
      let (key_0, key_1, _, _, generated, _, _, _) = level-AreShared 0 [] below dcf.positive tt in
      (key_0, key_1, generated, shared key_0 key_1 generated)
    where
      typed_output :
          (key : DpfKey) (i p : ℕ) {out : List Element}
          → evaluate_at d.dpf t key i (p ∷ []) ≡ ok out
          → HasType t (output_at t out)
      typed_output key i p {out} e =
          get_or-default-HasType t dcf.supported 0 out
            (evaluate_at-HasType t dcf.supported d.dpf key i (p ∷ []) e)

      shared :
          (key_0 key_1 : DpfKey)
          → generate_keys_incremental d.dpf seed_0 seed_1 (alpha / 2) values ≡ ok (key_0, key_1)
          → LevelsShared d t n alpha b key_0 key_1
      shared key_0 key_1 generated i p inside small =
          let (k_0, k_1, out_0, out_1, again, e_0, e_1, total) =
            level-AreShared i (p ∷ []) below inside (small, tt) in
          let same = ok-injective (sym again ∙ generated) in
          let e_0' =
            subst (λ k. evaluate_at d.dpf t k i (p ∷ []) ≡ ok out_0) (ap (λ ks. ks.0) same) e_0 in
          let e_1' =
            subst (λ k. evaluate_at d.dpf t k i (p ∷ []) ≡ ok out_1) (ap (λ ks. ks.1) same) e_1 in
          (
            out_0,
            out_1,
            e_0',
            e_1',
            typed_output key_0 i p e_0',
            typed_output key_1 i p e_1',
            sum_of_one t out_0 out_1 total
                ∙ ap (λ a. if p == a then value_at t n alpha b i else default t)
                    (prefix_of_alpha i inside),
          )
