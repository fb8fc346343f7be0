-- ===== src/Mic/Shares.antt =====
-- The gate from end to end (dcf/fss_gates/multiple_interval_containment.cc): `Create`, `Gen`, and `Eval`
-- of both parties.
use native.Mathlib.Nat.{mod-lt, one-le-pow}
use distributed_point_functi.Base.{
  ℕ, ◌+◌, ◌-◌, ◌%◌, ◌^◌, ◌<◌, ◌≤◌, ◌≡◌, refl, sym, ap, ◌∙◌, subst, List, [], ◌∷◌, All, ok, length,
  guard, leb, invalid_argument, lt→ltb, eq→==, le_of_guard, arith, >>=-eq-ok, ok-injective, some,
}
use distributed_point_functi.Aes.{OpenSsl, hash_with}
use distributed_point_functi.Aes.Hash.{IsEcb}
use distributed_point_functi.Proto.{ValueType}
use distributed_point_functi.Values.{uint, number, is_uint, uint_supported}
use distributed_point_functi.Values.Convert.{to_value_type}
use distributed_point_functi.Values.Bytes.{can_be_converted_directly, total_bit_size}
use distributed_point_functi.Security.{Double}
use distributed_point_functi.Validator.Bits.{RoundsUp}
use distributed_point_functi.Validator.Simple.{IsSimple, direct}
use distributed_point_functi.Dpf.{find_function}
use distributed_point_functi.Dpf.Create.{default_functions, register_value_type_impl}
use distributed_point_functi.Dcf.{create_dcf}
use distributed_point_functi.Dcf.Zero.{uint_free}
use distributed_point_functi.Dcf.Levels.{IsDcf}
use distributed_point_functi.Dcf.Create.{default_functions-kept, registered-IsDcf}
use distributed_point_functi.Dpf.Registered.{same_bytes_refl}
use distributed_point_functi.Dcf.Shares.{generate_keys-Compares, generate_keys-party}
use distributed_point_functi.Mic.{
  Mic, MicKey, MicParameters, create_gate, dcf_parameters, validate_mic_parameters,
  validate_intervals, all_in_group, mask_shares, gen, eval,
}
use distributed_point_functi.Mic.Intervals.{
  sums_mod, masked_indicators, gate_key, eval_intervals-IntervalsShared,
}

all_in_group-ok : (n : ℕ) (rs : List ℕ) → All (λ r. r < n) rs → all_in_group n rs ≡ ok tt
unfolding all_in_group
all_in_group-ok n [] all = refl
all_in_group-ok n (r ∷ rs) all = rw (lt→ltb r n all.0, all_in_group-ok n rs all.1) refl

number_16 : IsSimple (uint 16)
unfolding can_be_converted_directly total_bit_size
number_16 = direct refl (omega arith) (omega arith)

-- Every object knows uint128.
finds_uint_16 :
    (serialize : ValueType → List ℕ)
    → find_function (serialize (to_value_type (uint 16))) (default_functions serialize)
      ≡ some (uint 16)
unfolding default_functions register_value_type_impl find_function
finds_uint_16 serialize = rw (same_bytes_refl (serialize (to_value_type (uint 16)))) refl

-- `Gen` returns two keys, and `Eval` a list for each, whose entries add up to the masked indicators.
abbrev pub IsShared : Mic → MicParameters → ℕ → ℕ → ℕ → ℕ → List ℕ → List ℕ → Type 0
IsShared g p seed_0 seed_1 r_in x r_out randoms =
    (key_0 key_1 : MicKey) × (ys_0 ys_1 : List ℕ) × (gen g seed_0 seed_1 randoms r_in r_out
      ≡ ok (key_0, key_1))
    × (eval g key_0 x ≡ ok ys_0)
    × (eval g key_1 x ≡ ok ys_1)
    × (sums_mod (2 ^ p.log_group_size) ys_0 ys_1
        ≡ masked_indicators (2 ^ p.log_group_size)
            ((x + 2 ^ p.log_group_size - r_in) % 2 ^ p.log_group_size) p.intervals r_out)

gate-IsShared :
    (g : Mic) (seed_0 seed_1 r_in x : ℕ) (r_out randoms : List ℕ)
    → IsDcf g.dcf (uint 16) g.mic_parameters.log_group_size
    → g.mic_parameters.log_group_size ≤ 127
    → validate_intervals (2 ^ g.mic_parameters.log_group_size) g.mic_parameters.intervals ≡ ok tt
    → length r_out ≡ length g.mic_parameters.intervals
    → length randoms ≡ length g.mic_parameters.intervals
    → r_in < 2 ^ g.mic_parameters.log_group_size
    → All (λ r. r < 2 ^ g.mic_parameters.log_group_size) r_out
    → x < 2 ^ g.mic_parameters.log_group_size
    → IsShared g g.mic_parameters seed_0 seed_1 r_in x r_out randoms
unfolding gen eval
gate-IsShared g seed_0 seed_1 r_in x r_out randoms dcf small valid size sizes r_below outs x_below =
    let k = g.mic_parameters.log_group_size in
    let intervals = g.mic_parameters.intervals in
    let n = 2 ^ k in
    let gamma = (n - 1 + r_in) % n in
    let (key_0, key_1, generated, compares) =
      generate_keys-Compares g.dcf (uint 16) k dcf (number 1) (is_uint (omega arith)) gamma seed_0
        seed_1 (mod-lt (n - 1 + r_in) (one-le-pow k 2 (omega arith))) in
    let (party_0, party_1) =
      generate_keys-party g.dcf seed_0 seed_1 gamma _ key_0 key_1 generated in
    let shares = mask_shares n r_in intervals r_out randoms in
    let (ys_0, ys_1, f_0, f_1, total) =
      eval_intervals-IntervalsShared g k small key_0 key_1 party_0 party_1 shares.0 shares.1 r_in x
        r_below x_below compares intervals r_out randoms valid size sizes in
    (
      gate_key key_0 shares.0,
      gate_key key_1 shares.1,
      ys_0,
      ys_1,
      rw
          (
            eq→== (length r_out) (length intervals) size,
            lt→ltb r_in n r_below,
            all_in_group-ok n r_out outs,
            generated,
          )
          refl,
      rw (lt→ltb x n x_below) f_0,
      rw (lt→ltb x n x_below) f_1,
      total,
    )

module _ {ℓ} (W : Type ℓ) ⦃double : Double W⦄ (openssl : OpenSsl) (serialize : ValueType → List ℕ)
    (p : MicParameters) (g : Mic) where
  abbrev k : ℕ
  k = p.log_group_size

  -- The parts of a gate that was created.
  create_gate-parts :
      create_gate W openssl serialize p ≡ ok g
      → (k ≤ 127)
        × (validate_intervals (2 ^ k) p.intervals ≡ ok tt)
        × (g.mic_parameters ≡ p)
        × (create_dcf openssl serialize (dcf_parameters {W = W} k) ≡ ok g.dcf)
  unfolding create_gate validate_mic_parameters
  create_gate-parts e =
      let (_, valid, e1) = >>=-eq-ok (validate_mic_parameters p) _ e in
      let (_, small, valid') = >>=-eq-ok (guard (leb k 127) invalid_argument) _ valid in
      let (dcf, made, e2) =
        >>=-eq-ok (create_dcf openssl serialize (dcf_parameters {W = W} k)) _ e1 in
      let same = ok-injective e2 in
      (
        le_of_guard k 127 invalid_argument small,
        valid',
        sym (ap (λ x. x.mic_parameters) same),
        made ∙ ap (λ x. ok x.dcf) same,
      )

  create_gate-IsDcf :
      (cipher : ℕ → ℕ → ℕ)
      → RoundsUp double
      → ((key : ℕ) → IsEcb (hash_with openssl key) (cipher key))
      → create_gate W openssl serialize p ≡ ok g
      → IsDcf g.dcf (uint 16) k
  unfolding dcf_parameters
  create_gate-IsDcf cipher up ecb e =
      let (small, _, _, made) = create_gate-parts e in
      registered-IsDcf openssl serialize (dcf_parameters {W = W} k) (uint 16) uint_free number_16
        uint_supported (omega (arith, small)) up cipher ecb g.dcf made refl []
        (ap (find_function (serialize (to_value_type (uint 16)))) (
            default_functions-kept openssl serialize (dcf_parameters {W = W} k) (uint 16) uint_free
              number_16 uint_supported (omega (arith, small)) up cipher ecb g.dcf made refl)
          ∙ finds_uint_16 serialize)

  -- Let OpenSSL encrypt in ECB mode, logarithms of positive ints be rounded up, and the gate be created, for groups of
  -- N = 2 ^ log_group_size elements. If there is an output mask and a random number for every
  -- interval, and the input mask, the output masks and the masked input x are below N, then `Gen`
  -- returns two keys, and `Eval` returns a list for each. Entry by entry the two lists add up modulo N
  -- to the output mask, plus 1 if the interval contains (x - r_in) mod N.
  pub gen-shares :
      (cipher : ℕ → ℕ → ℕ) (seed_0 seed_1 r_in x : ℕ) (r_out randoms : List ℕ)
      → RoundsUp double
      → ((key : ℕ) → IsEcb (hash_with openssl key) (cipher key))
      → create_gate W openssl serialize p ≡ ok g
      → length r_out ≡ length p.intervals
      → length randoms ≡ length p.intervals
      → r_in < 2 ^ p.log_group_size
      → All (λ r. r < 2 ^ p.log_group_size) r_out
      → x < 2 ^ p.log_group_size
      → (key_0 key_1 : MicKey) × (ys_0 ys_1 : List ℕ) × (gen g seed_0 seed_1 randoms r_in r_out
          ≡ ok (key_0, key_1))
        × (eval g key_0 x ≡ ok ys_0)
        × (eval g key_1 x ≡ ok ys_1)
        × (sums_mod (2 ^ p.log_group_size) ys_0 ys_1
            ≡ masked_indicators
                (2 ^ p.log_group_size)
                ((x + 2 ^ p.log_group_size - r_in) % 2 ^ p.log_group_size)
                p.intervals
                r_out)
  gen-shares cipher seed_0 seed_1 r_in x r_out randoms up ecb e size sizes r_below outs x_below =
      let (small, valid, same, made) = create_gate-parts e in
      let dcf = create_gate-IsDcf cipher up ecb e in
      subst
        (λ q.
          IsDcf g.dcf (uint 16) q.log_group_size
          → q.log_group_size ≤ 127
          → validate_intervals (2 ^ q.log_group_size) q.intervals ≡ ok tt
          → length r_out ≡ length q.intervals
          → length randoms ≡ length q.intervals
          → r_in < 2 ^ q.log_group_size
          → All (λ r. r < 2 ^ q.log_group_size) r_out
          → x < 2 ^ q.log_group_size
          → IsShared g q seed_0 seed_1 r_in x r_out randoms)
        same (gate-IsShared g seed_0 seed_1 r_in x r_out randoms) dcf small valid size sizes r_below
        outs x_below
