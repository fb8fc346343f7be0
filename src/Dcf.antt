-- ===== src/Dcf.antt =====
-- DistributedComparisonFunction (dcf/distributed_comparison_function.h and .cc): key generation and
-- evaluation, over an incremental DPF with one hierarchy level for each bit of the input.
pub mod Zero
pub mod Levels
pub mod Compare
pub mod Create
pub mod Shares
use distributed_point_functi.Base.{
  ℕ, zero, suc, ◌-◌, ◌/◌, ◌^◌, none, some, List, [], ◌∷◌, map, not, Status, ok, err,
  invalid_argument, ◌>>=◌, ◌>>◌, guard, if◌then◌else◌, ltb, get_or, test_bit,
}
use distributed_point_functi.Aes.{OpenSsl}
use distributed_point_functi.Security.{Double}
use distributed_point_functi.Validator.Create.{SecuredParameters, validate_parameters}
use distributed_point_functi.Dpf.Create.{create_incremental}
use distributed_point_functi.Dpf.Objects.{object_to_value}
use distributed_point_functi.Proto.{
  Value, Values, value_not_set, integer, tuple, int_mod_n, xor_wrapper, value_uint64, nil, cons,
  DpfKey, ValueType, DpfParameters,
}
use distributed_point_functi.Values.{ElementType, Element, add, default}
use distributed_point_functi.Dpf.{Dpf}
use distributed_point_functi.Dpf.Generate.{generate_keys_incremental}
use distributed_point_functi.Dpf.Evaluate.{evaluate_at}

-- The message DcfParameters.
pub record DcfParameters {ℓ} (W : Type ℓ) : Type ℓ where
  pub parameters : SecuredParameters W

pub record DcfKey : Type 0 where
  pub key : DpfKey

-- `parameters_.parameters().log_domain_size()`, and `dpf_`.
pub record Dcf : Type 0 where
  pub log_domain_size : ℕ
  pub dpf : Dpf

-- A XorWrapper value is left as it is.
unfoldable mutual
  pub set_to_zero : Value → Value
  set_to_zero value_not_set = value_not_set
  set_to_zero (integer i) = integer (value_uint64 0)
  set_to_zero (tuple vs) = tuple (set_all_to_zero vs)
  set_to_zero (int_mod_n i) = int_mod_n (value_uint64 0)
  set_to_zero (xor_wrapper i) = xor_wrapper i

  pub set_all_to_zero : Values → Values
  set_all_to_zero nil = nil
  set_all_to_zero (cons v vs) = cons (set_to_zero v) (set_all_to_zero vs)

-- `dpf_parameters` of `Create`, from level i, with the number of levels left.
unfoldable pub dpf_parameters : ValueType → ℕ → ℕ → List DpfParameters
dpf_parameters t zero i = []
dpf_parameters t (suc left) i =
    record { log_domain_size = i; value_type = some t } ∷ dpf_parameters t left (suc i)

module _ {ℓ} {W : Type ℓ} ⦃double : Double W⦄ where
  -- The parameters of a DPF, whose `security_parameter` is not set.
  abbrev pub not_secured : DpfParameters → SecuredParameters W
  not_secured p = record { parameters = p; security_parameter = double.of_int 0 }

  -- The end of `Create`, from `dpf_parameters`.
  unfoldable pub create_from :
      OpenSsl → (ValueType → List ℕ) → ℕ → List (SecuredParameters W) → Status Dcf
  create_from openssl serialize log_size ps = do
    validate_parameters ps
    dpf ← create_incremental openssl serialize ps
    ok (record { log_domain_size = log_size; dpf = dpf })

  -- `Create(parameters)`.
  unfoldable pub create_dcf : OpenSsl → (ValueType → List ℕ) → DcfParameters W → Status Dcf
  unfolding create_from
  create_dcf openssl serialize p = do
    guard (not (ltb p.parameters.parameters.log_domain_size 1)) invalid_argument
    elim p.parameters.parameters.value_type [
      | none ↦ err invalid_argument
      | some t ↦
          create_from openssl serialize p.parameters.parameters.log_domain_size
            (map not_secured (dpf_parameters t p.parameters.parameters.log_domain_size 0))
    ]

-- `dpf_values`: the value of level i is beta if that bit of alpha is set, and zero otherwise.
unfoldable pub dpf_values : ℕ → ℕ → Value → ℕ → ℕ → List Value
dpf_values log_size alpha beta zero i = []
dpf_values log_size alpha beta (suc left) i =
    (if test_bit alpha (log_size - i - 1) then beta else set_to_zero beta)
    ∷ dpf_values log_size alpha beta left (suc i)

-- `GenerateKeys(alpha, beta)`, with the seeds of the DPF keys.
unfoldable pub generate_keys : Dcf → ℕ → ℕ → ℕ → Value → Status (DcfKey × DcfKey)
generate_keys d random_0 random_1 alpha beta = do
  (key_0, key_1) ←
      generate_keys_incremental d.dpf random_0 random_1 (alpha / 2)
        (dpf_values d.log_domain_size alpha beta d.log_domain_size 0)
  ok (record { key = key_0 }, record { key = key_1 })

-- `GenerateKeys(alpha, beta)` of an object in place of a message. The DPF registers the type.
unfoldable pub generate_keys_from_object :
    Dcf → ℕ → ℕ → ℕ → ElementType → Element → Status (DcfKey × DcfKey) × Dcf
unfolding generate_keys object_to_value
generate_keys_from_object d random_0 random_1 alpha t beta =
    let (value, dpf) = object_to_value t beta d.dpf in
    let d' : Dcf = record { log_domain_size = d.log_domain_size; dpf = dpf } in
    (generate_keys d' random_0 random_1 alpha value, d')

-- The prefix of x at level i. It is 0 on a domain of 128 bits.
abbrev pub prefix_at : ℕ → ℕ → ℕ → ℕ
prefix_at log_size x i = if ltb log_size 128 then x / 2 ^ (log_size - i) else 0

-- The loop of `Evaluate`, with the number of levels left, from level i.
unfoldable pub evaluate_prefixes : Dcf → ElementType → DcfKey → ℕ → ℕ → ℕ → Element → Status Element
evaluate_prefixes d t key x zero i result = ok result
evaluate_prefixes d t key x (suc left) i result = do
  dpf_evaluation ← evaluate_at d.dpf t key.key i (prefix_at d.log_domain_size x i ∷ [])
  evaluate_prefixes d t key x left (suc i) (
      if test_bit x (d.log_domain_size - i - 1)
      then result
      else add t result (get_or dpf_evaluation 0 (default t)))

-- `Evaluate<T>(key, x)`.
unfoldable pub evaluate_key : Dcf → ElementType → DcfKey → ℕ → Status Element
evaluate_key d t key x = evaluate_prefixes d t key x d.log_domain_size 0 (default t)
