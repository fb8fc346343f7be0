-- ===== src/Mic/Masks.antt =====
-- The arithmetic of the gate, over one interval: the comparisons of the masked input add up to the
-- indicator of the interval (Lemmas 1 and 2 and Theorem 3 of the paper that the code cites).
use native.Mathlib.Decide.{dec_lt}
use native.Mathlib.Nat.{mod-eq_of_lt, mod-eq-sub-mod, mod-add-mod, mod-lt}
use distributed_point_functi.Base.{
  ℕ, ◌+◌, ◌-◌, ◌%◌, ◌≤◌, ◌<◌, ◌≡◌, ◌⊎◌, inl, inr, sym, ◌∙◌, ap, ◌&&◌, ltb, leb, ◌==◌, to_ℕ, arith,
}

minus_one : (n a : ℕ) → n ≤ a → a < n + n → a % n + n ≡ a
minus_one n a le h =
    omega (arith, mod-eq-sub-mod {n = a} {m = n} le, mod-eq_of_lt {n = a - n} {m = n} (omega arith))

-- A sum of two group elements is reduced by at most one subtraction.
wrapped : (n a : ℕ) → a < n + n → ((a < n) × (a % n ≡ a)) ⊎ ((n ≤ a) × (a % n + n ≡ a))
wrapped n a h = elim (dec_lt a n) [
  | yes small ↦ inl (small, mod-eq_of_lt small)
  | no large ↦ inr (omega arith, minus_one n a (omega arith) h)
]

-- What comparing a masked input with a masked point tells of the point.
point_unmasked :
    (n c x r g ac xc : ℕ)
    → c < n
    → x < n
    → r < n
    → ((n - 1 + r < n) × (g ≡ n - 1 + r)) ⊎ ((n ≤ n - 1 + r) × (g + n ≡ n - 1 + r))
    → ((c + r < n) × (ac ≡ c + r)) ⊎ ((n ≤ c + r) × (ac + n ≡ c + r))
    → ((x + n - 1 - c < n) × (xc ≡ x + n - 1 - c))
      ⊎ ((n ≤ x + n - 1 - c) × (xc + n ≡ x + n - 1 - c))
    → to_ℕ (ltb c x) + to_ℕ (ltb x ac) ≡ to_ℕ (ltb xc g) + to_ℕ (ltb c ac)
point_unmasked n c x r g ac xc h1 h2 h3 a b d = ground arith

point :
    (n c x r : ℕ)
    → c < n
    → x < n
    → r < n
    → to_ℕ (ltb c x) + to_ℕ (ltb x ((c + r) % n))
      ≡ to_ℕ (ltb ((x + n - 1 - c) % n) ((n - 1 + r) % n)) + to_ℕ (ltb c ((c + r) % n))
point n c x r h1 h2 h3 =
    point_unmasked n c x r ((n - 1 + r) % n) ((c + r) % n) ((x + n - 1 - c) % n) h1 h2 h3
      (wrapped n (n - 1 + r) (omega arith)) (wrapped n (c + r) (omega arith))
      (wrapped n (x + n - 1 - c) (omega arith))

interval_unmasked :
    (n p q x r ap aq xm : ℕ)
    → p ≤ q
    → q < n
    → x < n
    → r < n
    → ((p + r < n) × (ap ≡ p + r)) ⊎ ((n ≤ p + r) × (ap + n ≡ p + r))
    → ((q + r < n) × (aq ≡ q + r)) ⊎ ((n ≤ q + r) × (aq + n ≡ q + r))
    → ((x + n - r < n) × (xm ≡ x + n - r)) ⊎ ((n ≤ x + n - r) × (xm + n ≡ x + n - r))
    → to_ℕ (leb x aq) + to_ℕ (ltb aq ap) ≡ to_ℕ (leb p xm && leb xm q) + to_ℕ (ltb x ap)
interval_unmasked n p q x r ap aq xm h1 h2 h3 h4 a b d = ground arith

last_point :
    (n aq aq1 x : ℕ)
    → aq < n
    → x < n
    → ((aq + 1 < n) × (aq1 ≡ aq + 1)) ⊎ ((n ≤ aq + 1) × (aq1 + n ≡ aq + 1))
    → to_ℕ (ltb x aq1) + to_ℕ (aq == n - 1) ≡ to_ℕ (leb x aq)
last_point n aq aq1 x h1 h2 a = ground arith

module _ (n p q x r : ℕ) (ordered : p ≤ q) (q_in : q < n) (x_in : x < n) (r_in : r < n) where
  abbrev q_prime : ℕ
  q_prime = (q + 1) % n

  next_mask : (q_prime + r) % n ≡ ((q + r) % n + 1) % n
  next_mask =
      mod-add-mod (q + 1) n r ∙ ap (λ t. t % n) (omega arith) ∙ sym (mod-add-mod (q + r) n 1)

  pub indicators :
      to_ℕ (ltb p x)
        + to_ℕ (ltb ((x + n - 1 - q_prime) % n) ((n - 1 + r) % n))
        + to_ℕ (ltb ((q + r) % n) ((p + r) % n))
        + to_ℕ (ltb q_prime ((q + 1 + r) % n))
        + to_ℕ ((q + r) % n == n - 1)
      ≡ to_ℕ (leb p ((x + n - r) % n) && leb ((x + n - r) % n) q)
        + to_ℕ (ltb q_prime x)
        + to_ℕ (ltb ((x + n - 1 - p) % n) ((n - 1 + r) % n))
        + to_ℕ (ltb p ((p + r) % n))
  indicators =
      let at_p = point n p x r (omega arith) x_in r_in in
      let at_q = point n q_prime x r (mod-lt (q + 1) (omega arith)) x_in r_in in
      let between =
        interval_unmasked n p q x r ((p + r) % n) ((q + r) % n) ((x + n - r) % n) ordered q_in x_in
          r_in (wrapped n (p + r) (omega arith)) (wrapped n (q + r) (omega arith))
          (wrapped n (x + n - r) (omega arith)) in
      let below : (q + r) % n < n = mod-lt (q + r) (omega arith) in
      let final =
        last_point n ((q + r) % n) (((q + r) % n + 1) % n) x below x_in
          (wrapped n ((q + r) % n + 1) (omega arith)) in
      let same : (q + 1 + r) % n ≡ (q_prime + r) % n = sym (mod-add-mod (q + 1) n r) in
      rw (same, next_mask)
        (let at_q' = rw (next_mask) at at_q in omega (arith, at_p, at_q', between, final))
