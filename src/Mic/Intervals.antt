-- ===== src/Mic/Intervals.antt =====
-- The loops of `Gen` and `Eval` over the intervals (dcf/fss_gates/multiple_interval_containment.cc),
-- for a DCF whose keys evaluate to shares of 1 below gamma.
use native.Mathlib.Nat.{mod-lt, one-le-pow}
use distributed_point_functi.Base.{
  ℕ, ◌+◌, ◌-◌, ◌%◌, ◌^◌, ◌≤◌, ◌<◌, ◌≡◌, refl, ap, Bool, true, false, ◌&&◌, List, [], ◌∷◌, ok,
  length, guard, invalid_argument, ltb, leb, arith, to_ℕ, >>=-eq-ok, lt_of_guard, le_of_guard,
  u128_mod, if◌then◌else◌,
}
use distributed_point_functi.Proto.{ValueInteger, block-round_trip}
use distributed_point_functi.Values.{Element, HasType, is_uint, uint, number, add, default}
use distributed_point_functi.Dcf.{DcfKey, evaluate_key}
use distributed_point_functi.Dcf.Shares.{Compares}
use distributed_point_functi.Mic.{
  Mic, MicKey, Interval, bound, has_bound, validate_intervals, mask_shares, eval_intervals,
  interval_output, correction_term, second_share, as_number, write_uint128,
}
use distributed_point_functi.Mic.Outputs.{interval_output-shares}

-- The sums of the parties' outputs, modulo N.
abbrev pub sums_mod : ℕ → List ℕ → List ℕ → List ℕ
sums_mod n (y ∷ ys) (z ∷ zs) = (y + z) % n ∷ sums_mod n ys zs
sums_mod n _ _ = []

-- The output masks, each plus 1 if u is in the interval.
abbrev pub masked_indicators : ℕ → ℕ → List Interval → List ℕ → List ℕ
masked_indicators n u (i ∷ is) (r ∷ r_out) =
    (r + to_ℕ (leb (bound i.lower_bound) u && leb u (bound i.upper_bound))) % n
    ∷ masked_indicators n u is r_out
masked_indicators n u _ _ = []

-- What the DCF outputs say as numbers.
numbers-sum :
    {a b : Element} (c : Bool)
    → HasType (uint 16) a
    → HasType (uint 16) b
    → add (uint 16) a b ≡ (if c then number 1 else default (uint 16))
    → (as_number a + as_number b) % u128_mod ≡ to_ℕ c
unfolding add default
numbers-sum true (is_uint {a = a} h) (is_uint {a = b} h') e = ap as_number e
numbers-sum false (is_uint {a = a} h) (is_uint {a = b} h') e = ap as_number e

-- What the checks of `Create` say of the first interval.
first_interval :
    (n : ℕ) (i : Interval) (is : List Interval)
    → validate_intervals n (i ∷ is) ≡ ok tt
    → (bound i.lower_bound ≤ bound i.upper_bound)
      × (bound i.upper_bound < n)
      × (validate_intervals n is ≡ ok tt)
unfolding validate_intervals
first_interval n i is e =
    let (_, _, e1) = >>=-eq-ok (guard (has_bound i.lower_bound) invalid_argument) _ e in
    let (_, _, e2) = >>=-eq-ok (guard (has_bound i.upper_bound) invalid_argument) _ e1 in
    let (_, _, e3) = >>=-eq-ok (guard (ltb (bound i.lower_bound) n) invalid_argument) _ e2 in
    let (_, below, e4) = >>=-eq-ok (guard (ltb (bound i.upper_bound) n) invalid_argument) _ e3 in
    let (_, ordered, e5) =
      >>=-eq-ok (guard (leb (bound i.lower_bound) (bound i.upper_bound)) invalid_argument) _ e4 in
    (
      le_of_guard (bound i.lower_bound) (bound i.upper_bound) invalid_argument ordered,
      lt_of_guard (bound i.upper_bound) n invalid_argument below,
      e5,
    )

-- A key of the gate.
abbrev pub gate_key : DcfKey → List ValueInteger → MicKey
gate_key key shares = record { dcfkey = key; output_mask_share = shares }

-- The masked comparison points.
abbrev x_p : ℕ → ℕ → Interval → ℕ
x_p n x i = (x + n - 1 - bound i.lower_bound) % n

abbrev x_q_prime : ℕ → ℕ → Interval → ℕ
x_q_prime n x i = (x + n - 1 - (bound i.upper_bound + 1) % n) % n

-- One round of the loop of `Eval`.
eval_intervals-step :
    (g : Mic) (n x : ℕ) (key : DcfKey) (whole : List ValueInteger) (i : Interval)
    (is : List Interval) (z : ℕ) (shares : List ValueInteger) (s_p s_q_prime : Element)
    (ys : List ℕ)
    → evaluate_key g.dcf (uint 16) key (x_p n x i) ≡ ok s_p
    → evaluate_key g.dcf (uint 16) key (x_q_prime n x i) ≡ ok s_q_prime
    → eval_intervals g (gate_key key whole) n x is shares ≡ ok ys
    → eval_intervals g (gate_key key whole) n x (i ∷ is) (write_uint128 z ∷ shares)
      ≡ ok (
          interval_output n key.key.party
            (bound i.lower_bound)
            (bound i.upper_bound)
            x
            (as_number s_p % n)
            (as_number s_q_prime % n)
            z
          ∷ ys)
unfolding eval_intervals
eval_intervals-step g n x key whole i is z shares s_p s_q_prime ys e_p e_q e =
    rw (e_p, e_q, e, block-round_trip z) refl

module _ (g : Mic) (k : ℕ) (small : k ≤ 127) (key_0 key_1 : DcfKey) (party_0 : key_0.key.party ≡ 0)
    (party_1 : key_1.key.party ≡ 1) (w_0 w_1 : List ValueInteger) (r_in x : ℕ)
    (r_below : r_in < 2 ^ k) (x_below : x < 2 ^ k)
    (compares : (y : ℕ)
      → y < 2 ^ k
      → Compares g.dcf (uint 16) ((2 ^ k - 1 + r_in) % 2 ^ k) (number 1) key_0 key_1 y) where
  abbrev n : ℕ
  n = 2 ^ k

  -- What the gate outputs for the intervals left.
  abbrev pub IntervalsShared : List Interval → List ℕ → List ℕ → Type 0
  IntervalsShared intervals r_out randoms =
      (ys_0 ys_1 : List ℕ) × (eval_intervals g (gate_key key_0 w_0) n x intervals
          (mask_shares n r_in intervals r_out randoms).0
        ≡ ok ys_0)
      × (eval_intervals g (gate_key key_1 w_1) n x intervals
            (mask_shares n r_in intervals r_out randoms).1
          ≡ ok ys_1)
      × (sums_mod n ys_0 ys_1 ≡ masked_indicators n ((x + n - r_in) % n) intervals r_out)

  -- Both parties evaluate every interval, and the outputs are shares.
  pub eval_intervals-IntervalsShared :
      (intervals : List Interval) (r_out randoms : List ℕ)
      → validate_intervals n intervals ≡ ok tt
      → length r_out ≡ length intervals
      → length randoms ≡ length intervals
      → IntervalsShared intervals r_out randoms
  unfolding eval_intervals mask_shares
  eval_intervals-IntervalsShared [] r_out randoms valid e e' = ([], [], refl, refl, refl)
  eval_intervals-IntervalsShared (i ∷ is) (r ∷ r_out) (random ∷ randoms) valid e e' =
      let pos : 0 < n = one-le-pow k 2 (omega arith) in
      let (ordered, below, valid') = first_interval n i is valid in
      let (ys_0, ys_1, f_0, f_1, total) =
        eval_intervals-IntervalsShared is r_out randoms valid' (omega (arith, e))
          (omega (arith, e')) in
      let (p_0, p_1, e_p_0, e_p_1, u_0, u_1, sum_p) =
        compares (x_p n x i) (mod-lt (x + n - 1 - bound i.lower_bound) pos) in
      let (q_0, q_1, e_q_0, e_q_1, v_0, v_1, sum_q) =
        compares (x_q_prime n x i) (mod-lt (x + n - 1 - (bound i.upper_bound + 1) % n) pos) in
      let z_0 = random % n in
      let z = correction_term n (bound i.lower_bound) (bound i.upper_bound) r_in r in
      (
        interval_output n key_0.key.party (bound i.lower_bound) (bound i.upper_bound) x
              (as_number p_0 % n) (as_number q_0 % n) z_0
            ∷ ys_0,
        interval_output n key_1.key.party (bound i.lower_bound) (bound i.upper_bound) x
              (as_number p_1 % n) (as_number q_1 % n) (second_share n z z_0)
            ∷ ys_1,
        eval_intervals-step g n x key_0 w_0 i is z_0 _ p_0 q_0 ys_0 e_p_0 e_q_0 f_0,
        eval_intervals-step g n x key_1 w_1 i is (second_share n z z_0) _ p_1 q_1 ys_1 e_p_1 e_q_1
            f_1,
        rw (party_0, party_1, total)
            (ap (λ y. y ∷ masked_indicators n ((x + n - r_in) % n) is r_out)
              (interval_output-shares k (bound i.lower_bound) (bound i.upper_bound) x r_in r z_0
                (as_number p_0) (as_number p_1) (as_number q_0) (as_number q_1) small ordered below
                x_below r_below (mod-lt random pos)
                (numbers-sum (ltb (x_p n x i) ((n - 1 + r_in) % n)) u_0 u_1 sum_p)
                (numbers-sum (ltb (x_q_prime n x i) ((n - 1 + r_in) % n)) v_0 v_1 sum_q))),
      )
  eval_intervals-IntervalsShared (i ∷ is) [] randoms valid e e' = absurd (omega arith)
  eval_intervals-IntervalsShared (i ∷ is) (r ∷ r_out) [] valid e e' = absurd (omega arith)
