-- ===== src/Mic.antt =====
-- MultipleIntervalContainmentGate (dcf/fss_gates/multiple_interval_containment.h and .cc): from
-- shares of x + r_in, shares of r_out plus 1 for every interval that contains x, modulo N. The
-- numbers that `BasicRng` draws are arguments.
pub mod Masks
pub mod Outputs
pub mod Intervals
pub mod Shares
use distributed_point_functi.Base.{
  ℕ, zero, suc, ◌+◌, ◌-◌, ◌%◌, ◌^◌, Bool, true, false, not, Option, none, some, List, [], ◌∷◌,
  Status, ok, err, invalid_argument, ◌>>=◌, ◌>>◌, guard, if◌then◌else◌, ltb, leb, ◌==◌, length,
  get_or, drop, u128_mod, to_ℕ,
}
use distributed_point_functi.Aes.{OpenSsl}
use distributed_point_functi.Security.{Double}
use distributed_point_functi.Proto.{
  ValueType, ValueInteger, value_uint128, block_to_uint128, uint128_to_block,
}
use distributed_point_functi.Values.{Element, Elements, uint, number, elements}
use distributed_point_functi.Values.Convert.{to_value, to_value_type}
use distributed_point_functi.Dcf.{
  Dcf, DcfKey, DcfParameters, not_secured, create_dcf, generate_keys, evaluate_key,
}

pub record Interval : Type 0 where
  pub lower_bound : Option ValueInteger
  pub upper_bound : Option ValueInteger

pub record MicParameters : Type 0 where
  pub log_group_size : ℕ
  pub intervals : List Interval

pub record MicKey : Type 0 where
  pub dcfkey : DcfKey
  pub output_mask_share : List ValueInteger

pub record Mic : Type 0 where
  pub mic_parameters : MicParameters
  pub dcf : Dcf

-- `value_uint128()` of a `Value.Integer`: another case reads as zero.
abbrev pub read_uint128 : ValueInteger → ℕ
read_uint128 (value_uint128 b) = block_to_uint128 b
read_uint128 _ = 0

abbrev pub bound : Option ValueInteger → ℕ
bound none = 0
bound (some v) = read_uint128 v

abbrev pub has_bound : Option ValueInteger → Bool
has_bound none = false
has_bound (some v) = true

-- The checks of `Create`, on each interval and on all parameters.
unfoldable pub validate_intervals : ℕ → List Interval → Status (Unit {0})
validate_intervals n [] = ok tt
validate_intervals n (i ∷ is) = do
  guard (has_bound i.lower_bound) invalid_argument
  guard (has_bound i.upper_bound) invalid_argument
  guard (ltb (bound i.lower_bound) n) invalid_argument
  guard (ltb (bound i.upper_bound) n) invalid_argument
  guard (leb (bound i.lower_bound) (bound i.upper_bound)) invalid_argument
  validate_intervals n is

unfoldable pub validate_mic_parameters : MicParameters → Status (Unit {0})
validate_mic_parameters p = do
  guard (leb p.log_group_size 127) invalid_argument
  validate_intervals (2 ^ p.log_group_size) p.intervals

module _ {ℓ} {W : Type ℓ} ⦃double : Double W⦄ where
  -- `dcf_parameters`.
  unfoldable pub dcf_parameters : ℕ → DcfParameters W
  dcf_parameters log_group_size = record {
    parameters =
        not_secured (record {
          log_domain_size = log_group_size;
          value_type = some (to_value_type (uint 16));
        });
  }

-- `Create(mic_parameters)`. The DCF's parameters hold doubles of type W.
unfoldable pub create_gate {ℓ} :
    (W : Type ℓ) ⦃double : Double W⦄ → OpenSsl → (ValueType → List ℕ) → MicParameters → Status Mic
unfolding dcf_parameters
create_gate W openssl serialize p = do
  validate_mic_parameters p
  dcf ← create_dcf openssl serialize (dcf_parameters {W = W} p.log_group_size)
  ok (record { mic_parameters = p; dcf = dcf })

-- Lines 4 and 5 of the Gen procedure: the correction term z of an interval [p, q]. The int -1
-- becomes the largest absl::uint128.
unfoldable pub correction_term : ℕ → ℕ → ℕ → ℕ → ℕ → ℕ
correction_term n p q r_in r_out =
    let q_prime = (q + 1) % n in
    let alpha_p = (p + r_in) % n in
    let alpha_q = (q + r_in) % n in
    let alpha_q_prime = (q + 1 + r_in) % n in
    (r_out
      + to_ℕ (ltb alpha_q alpha_p)
      + (if ltb p alpha_p then u128_mod - 1 else 0)
      + to_ℕ (ltb q_prime alpha_q_prime)
      + to_ℕ (alpha_q == n - 1))
    % u128_mod
    % n

-- The second share of z, `(z - z_0) % N`.
unfoldable pub second_share : ℕ → ℕ → ℕ → ℕ
second_share n z z_0 = (z + u128_mod - z_0) % u128_mod % n

abbrev pub write_uint128 : ℕ → ValueInteger
write_uint128 x = value_uint128 (uint128_to_block x)

-- The loop over the intervals, which adds both output mask shares.
unfoldable pub mask_shares :
    ℕ → ℕ → List Interval → List ℕ → List ℕ → List ValueInteger × List ValueInteger
mask_shares n r_in (i ∷ is) (r ∷ r_out) (random ∷ randoms) =
    let z = correction_term n (bound i.lower_bound) (bound i.upper_bound) r_in r in
    let z_0 = random % n in
    let rest = mask_shares n r_in is r_out randoms in
    (write_uint128 z_0 ∷ rest.0, write_uint128 (second_share n z z_0) ∷ rest.1)
mask_shares n r_in _ _ _ = ([], [])

unfoldable pub all_in_group : ℕ → List ℕ → Status (Unit {0})
all_in_group n [] = ok tt
all_in_group n (r ∷ rs) = do guard (ltb r n) invalid_argument; all_in_group n rs

-- `Gen(r_in, r_out)`.
unfoldable pub gen : Mic → ℕ → ℕ → List ℕ → ℕ → List ℕ → Status (MicKey × MicKey)
gen g random_0 random_1 randoms r_in r_out = do
  let n = 2 ^ g.mic_parameters.log_group_size
  guard (length r_out == length g.mic_parameters.intervals) invalid_argument
  guard (ltb r_in n) invalid_argument
  all_in_group n r_out
  (key_0, key_1) ←
      generate_keys g.dcf random_0 random_1 ((n - 1 + r_in) % n) (to_value (uint 16) (number 1))
  let shares = mask_shares n r_in g.mic_parameters.intervals r_out randoms
  ok (
    record { dcfkey = key_0; output_mask_share = shares.0 },
    record { dcfkey = key_1; output_mask_share = shares.1 },
  )

-- Line 7 of the Eval procedure, from the reduced DCF outputs. The int difference is converted to
-- absl::uint128.
unfoldable pub interval_output : ℕ → ℕ → ℕ → ℕ → ℕ → ℕ → ℕ → ℕ → ℕ
interval_output n party p q x s_p s_q_prime z =
    let q_prime = (q + 1) % n in
    let difference =
      if party == 0 then 0 else (to_ℕ (ltb p x) + u128_mod - to_ℕ (ltb q_prime x)) % u128_mod in
    (difference + u128_mod - s_p + s_q_prime + z) % u128_mod % n

abbrev pub as_number : Element → ℕ
as_number (number x) = x
as_number (elements xs) = 0

-- The loop of `Eval` over the intervals, with the output mask shares.
unfoldable pub eval_intervals :
    Mic → MicKey → ℕ → ℕ → List Interval → List ValueInteger → Status (List ℕ)
eval_intervals g k n x [] shares = ok []
eval_intervals g k n x (i ∷ is) shares = do
  let p = bound i.lower_bound
  let q = bound i.upper_bound
  s_p ← evaluate_key g.dcf (uint 16) k.dcfkey ((x + n - 1 - p) % n)
  s_q_prime ← evaluate_key g.dcf (uint 16) k.dcfkey ((x + n - 1 - (q + 1) % n) % n)
  let y =
      interval_output n k.dcfkey.key.party p q x (as_number s_p % n) (as_number s_q_prime % n)
        (read_uint128 (get_or shares 0 (write_uint128 0)))
  rest ← eval_intervals g k n x is (drop 1 shares)
  ok (y ∷ rest)

-- `Eval(k, x)`.
unfoldable pub eval : Mic → MicKey → ℕ → Status (List ℕ)
eval g k x = do
  let n = 2 ^ g.mic_parameters.log_group_size
  guard (ltb x n) invalid_argument
  eval_intervals g k n x g.mic_parameters.intervals k.output_mask_share
