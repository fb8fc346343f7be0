-- ===== src/Mic/Outputs.antt =====
-- The outputs of the gate: both parties' `Eval` results add up to the output mask, plus 1 if the
-- input lies in the interval, modulo N.
use native.Mathlib.Nat.{
  mod-lt, div-add-mod, mul-add, mul_assoc, add-mul-mod_self_left, pow-le-pow_right, one-le-pow,
}
use distributed_point_functi.Base.{
  ℕ, ◌+◌, ◌-◌, ◌*◌, ◌/◌, ◌%◌, ◌^◌, ◌≤◌, ◌<◌, ◌≡◌, refl, sym, ◌∙◌, ap, ap₂, Bool, true, false, ◌&&◌,
  ltb, leb, ◌==◌, to_ℕ, arith, u128_mod, if◌then◌else◌, pow-add,
}
use distributed_point_functi.Mic.{correction_term, second_share, interval_output}
use distributed_point_functi.Mic.Masks.{indicators}

-- The multiples of N, which a result modulo N may forget.
abbrev Multiple : ℕ → ℕ → Type 0
Multiple n a = (k : ℕ) × (a ≡ n * k)

Multiple-add : (n a b : ℕ) → Multiple n a → Multiple n b → Multiple n (a + b)
Multiple-add n a b (j, e) (k, f) = (j + k, ap₂ ◌+◌ e f ∙ sym (mul-add n j k))

same_mod : (n a b x y : ℕ) → Multiple n x → Multiple n y → a + x ≡ b + y → a % n ≡ b % n
same_mod n a b x y (j, e) (k, f) h =
    sym (add-mul-mod_self_left a n j)
    ∙ ap (λ t. t % n) (ap (λ t. a + t) (sym e) ∙ h ∙ ap (λ t. b + t) f)
    ∙ add-mul-mod_self_left b n k

-- A number, less a multiple of N, is its remainder.
remainder : (n a : ℕ) → (m : ℕ) × Multiple n m × (a % n + m ≡ a)
remainder n a = (n * (a / n), (a / n, refl), omega (arith, div-add-mod a n))

-- A remainder modulo a multiple of N, and then modulo N.
remainder_twice : (n c u a : ℕ) → u ≡ n * c → (m : ℕ) × Multiple n m × (a % u % n + m ≡ a)
remainder_twice n c u a h =
    let (m, mult, e) = remainder n (a % u) in
    (
      m + u * (a / u),
      Multiple-add n m (u * (a / u)) mult
          (c * (a / u), ap (λ t. t * (a / u)) h ∙ mul_assoc n c (a / u)),
      omega (arith, e, div-add-mod a u),
    )

remainder_wide : (n c u a : ℕ) → u ≡ n * c → (m : ℕ) × Multiple n m × (a % u + m ≡ a)
remainder_wide n c u a h = (
  u * (a / u),
  (c * (a / u), ap (λ t. t * (a / u)) h ∙ mul_assoc n c (a / u)),
  omega (arith, div-add-mod a u),
)

-- The int -1 of `Gen` as an absl::uint128.
minus_indicator :
    (n c : ℕ) (b : Bool)
    → u128_mod ≡ n * c
    → (m : ℕ) × Multiple n m × ((if b then u128_mod - 1 else 0) + to_ℕ b ≡ m)
minus_indicator n c true h = (u128_mod, (c, h), omega arith)
minus_indicator n c false h = (0, (0, omega arith), refl)

le_of_lt_le : (a b c : ℕ) → a < b → b ≤ c → a ≤ c
le_of_lt_le a b c h k = omega arith

to_ℕ-le : (b : Bool) → to_ℕ b ≤ 1
to_ℕ-le true = omega arith
to_ℕ-le false = omega arith

-- The sum of both outputs, with every remainder replaced by its number less a multiple.
collect :
    (y_0 y_1 a_0 a_1 b_0 b_1 z_0 z_1 z d ix iq ip jq a1 a2 a3 w b inside r u m0 m1 m2 m3 m4 m5 m6 m7
      m8 m9 m10 m11 : ℕ)
    → a_0 ≤ u
    → a_1 ≤ u
    → z_0 ≤ u
    → iq ≤ 1
    → 1 ≤ u
    → y_0 + m0 ≡ 0 + u - a_0 + b_0 + z_0
    → y_1 + m1 ≡ d + u - a_1 + b_1 + z_1
    → d + m2 ≡ ix + u - iq
    → a_0 + a_1 + (m3 + m4) ≡ ip + m7
    → b_0 + b_1 + (m5 + m6) ≡ jq + m8
    → z_1 + m9 ≡ z + u - z_0
    → z + m10 ≡ r + a1 + w + a2 + a3
    → w + b ≡ m11
    → ix + jq + a1 + a2 + a3 ≡ inside + iq + ip + b
    → y_0 + y_1 + (m0 + m1 + m2 + (m5 + m6) + m7 + m9 + m10)
      ≡ r + inside + (u + u + u + u + m11 + (m3 + m4) + m8)
collect y_0 y_1 a_0 a_1 b_0 b_1 z_0 z_1 z d ix iq ip jq a1 a2 a3 w b inside r u m0 m1 m2 m3 m4 m5 m6
      m7 m8 m9 m10 m11 h1 h2 h3 h4 h5 e1 e2 e3 e4 e5 e6 e7 e8 e9 =
    omega arith

module _ (k p q x r r_out z_0 a_0 a_1 b_0 b_1 : ℕ) where
  abbrev n : ℕ
  n = 2 ^ k

  abbrev q_prime : ℕ
  q_prime = (q + 1) % n

  abbrev z : ℕ
  z = correction_term n p q r r_out

  -- Let N be 2 ^ k with k at most 127, p <= q < N an interval, x a masked input, r an input mask and
  -- z_0 a first share, all below N. If both comparisons with the masked alpha are shared modulo
  -- 2 ^ 128, for p and for q + 1, then the parties' outputs for the interval, with the second share
  -- that `Gen` computes, add up modulo N to r_out, plus 1 if p <= (x - r) mod N <= q.
  pub interval_output-shares :
      k ≤ 127
      → p ≤ q
      → q < 2 ^ k
      → x < 2 ^ k
      → r < 2 ^ k
      → z_0 < 2 ^ k
      → (a_0 + a_1) % u128_mod ≡ to_ℕ (ltb ((x + 2 ^ k - 1 - p) % 2 ^ k) ((2 ^ k - 1 + r) % 2 ^ k))
      → (b_0 + b_1) % u128_mod
        ≡ to_ℕ (ltb ((x + 2 ^ k - 1 - (q + 1) % 2 ^ k) % 2 ^ k) ((2 ^ k - 1 + r) % 2 ^ k))
      → (interval_output (2 ^ k) 0 p q x (a_0 % 2 ^ k) (b_0 % 2 ^ k) z_0
            + interval_output
                (2 ^ k)
                1
                p
                q
                x
                (a_1 % 2 ^ k)
                (b_1 % 2 ^ k)
                (second_share (2 ^ k) (correction_term (2 ^ k) p q r r_out) z_0))
          % 2 ^ k
        ≡ (r_out + to_ℕ (leb p ((x + 2 ^ k - r) % 2 ^ k) && leb ((x + 2 ^ k - r) % 2 ^ k) q))
          % 2 ^ k
  unfolding interval_output second_share correction_term
  interval_output-shares small ordered q_in x_in r_in z_in s_p s_q =
      let c = 2 ^ (128 - k) in
      let u : u128_mod ≡ 2 ^ k * 2 ^ (128 - k) =
        ap (λ t. 2 ^ t) {x = 128} {y = k + (128 - k)} (omega arith) ∙ pow-add k (128 - k) in
      let fits : 2 ^ k ≤ u128_mod =
        pow-le-pow_right (omega arith) {i = k} {j = 128} (omega arith) in
      let pos : 1 ≤ 2 ^ k = one-le-pow k 2 (omega arith) in
      let term =
        r_out
        + to_ℕ (ltb ((q + r) % n) ((p + r) % n))
        + (if ltb p ((p + r) % n) then u128_mod - 1 else 0)
        + to_ℕ (ltb q_prime ((q + 1 + r) % n))
        + to_ℕ ((q + r) % n == n - 1) in
      let difference = to_ℕ (ltb p x) + u128_mod - to_ℕ (ltb q_prime x) in
      let z_1 = (z + u128_mod - z_0) % u128_mod % n in
      let (m0, k0, e0) = remainder_twice n c u128_mod (0 + u128_mod - a_0 % n + b_0 % n + z_0) u in
      let (m1, k1, e1) =
        remainder_twice n c u128_mod (difference % u128_mod + u128_mod - a_1 % n + b_1 % n + z_1)
          u in
      let (m2, k2, e2) = remainder_wide n c u128_mod difference u in
      let (m3, k3, e3) = remainder n a_0 in
      let (m4, k4, e4) = remainder n a_1 in
      let (m5, k5, e5) = remainder n b_0 in
      let (m6, k6, e6) = remainder n b_1 in
      let (m7, k7, e7) = remainder_wide n c u128_mod (a_0 + a_1) u in
      let (m8, k8, e8) = remainder_wide n c u128_mod (b_0 + b_1) u in
      let (m9, k9, e9) = remainder_twice n c u128_mod (z + u128_mod - z_0) u in
      let (m10, k10, e10) = remainder_twice n c u128_mod term u in
      let (m11, k11, e11) = minus_indicator n c (ltb p ((p + r) % n)) u in
      let whole : Multiple n u128_mod = (c, u) in
      let plus = λ (a b : ℕ) (f : Multiple n a) (g : Multiple n b). Multiple-add n a b f g in
      same_mod n _ (r_out + to_ℕ (leb p ((x + n - r) % n) && leb ((x + n - r) % n) q)) _ _
        (plus _ _
          (plus _ _ (plus _ _ (plus _ _ (plus _ _ (plus _ _ k0 k1) k2) (plus _ _ k5 k6)) k7) k9)
          k10)
        (plus _ _
          (plus _ _ (plus _ _ (plus _ _ (plus _ _ (plus _ _ whole whole) whole) whole) k11)
            (plus _ _ k3 k4))
          k8)
        (collect _ _ (a_0 % n) (a_1 % n) (b_0 % n) (b_1 % n) z_0 z_1 z (difference % u128_mod)
          (to_ℕ (ltb p x)) (to_ℕ (ltb q_prime x)) _ _ (to_ℕ (ltb ((q + r) % n) ((p + r) % n)))
          (to_ℕ (ltb q_prime ((q + 1 + r) % n))) (to_ℕ ((q + r) % n == n - 1)) _
          (to_ℕ (ltb p ((p + r) % n))) _ r_out u128_mod m0 m1 m2 m3 m4 m5 m6 m7 m8 m9 m10 m11
          (le_of_lt_le _ n u128_mod (mod-lt a_0 pos) fits)
          (le_of_lt_le _ n u128_mod (mod-lt a_1 pos) fits) (le_of_lt_le _ n u128_mod z_in fits)
          (to_ℕ-le (ltb q_prime x)) (omega arith) e0 e1 e2 (omega (arith, e3, e4, e7, s_p))
          (omega (arith, e5, e6, e8, s_q)) e9 e10 e11 (indicators n p q x r ordered q_in x_in r_in))
