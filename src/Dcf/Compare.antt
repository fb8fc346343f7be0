-- ===== src/Dcf/Compare.antt =====
-- The loop of `Evaluate` (dcf/distributed_comparison_function.h): on the first bits of the input, the
-- results of both parties add up to beta if these bits are below those of alpha.
use native.Mathlib.Nat.{div-one, pow-suc, div-div-eq-div-mul, div-eq_of_lt}
use distributed_point_functi.Base.{
  ℕ, zero, suc, ◌+◌, ◌-◌, ◌/◌, ◌%◌, ◌^◌, ◌<◌, ◌≡◌, refl, sym, ap, ap₂, ◌∙◌, subst, List, [], ◌∷◌,
  ok, ◌==◌, if◌then◌else◌, ltb, arith, Bool, true, false, test_bit, lt→ltb, ◌||◌, ◌&&◌, Bool-cases,
  inl, inr,
}
use distributed_point_functi.Values.{ElementType, Element, HasType, default, add}
use distributed_point_functi.Values.Group.{add_comm, add_assoc, add-default, add-HasType}
use distributed_point_functi.Values.Shares.{default-add}
use distributed_point_functi.Dpf.Correct.Typed.{default-typed}
use distributed_point_functi.Dpf.Correct.Level.{quotient_below}
use distributed_point_functi.Dpf.Evaluate.{evaluate_at}
use distributed_point_functi.Dcf.{Dcf, DcfKey, evaluate_prefixes, evaluate_key, prefix_at}
use distributed_point_functi.Dcf.Levels.{IsDcf, LevelsShared, output_at, value_at}

-- (r_0 + e_0) + (r_1 + e_1) is (r_0 + r_1) + (e_0 + e_1).
add-interchange :
    {t : ElementType} {r_0 e_0 r_1 e_1 : Element}
    → HasType t r_0
    → HasType t e_0
    → HasType t r_1
    → HasType t e_1
    → add t (add t r_0 e_0) (add t r_1 e_1) ≡ add t (add t r_0 r_1) (add t e_0 e_1)
add-interchange p_0 q_0 p_1 q_1 =
    rw
      (
        add_assoc p_0 q_0 (add-HasType p_1 q_1),
        ← add_assoc q_0 p_1 q_1,
        add_comm q_0 p_1,
        add_assoc p_1 q_0 q_1,
        ← add_assoc p_0 p_1 (add-HasType q_0 q_1),
      )
      refl

-- beta, or zero.
abbrev pub selected : ElementType → Element → Bool → Element
selected t b c = if c then b else default t

-- The comparison of two numbers from that of their halves and their last bits.
ltb-halves_odd : (x a : ℕ) → (x % 2 == 1) ≡ true → ltb x a ≡ ltb (x / 2) (a / 2)
ltb-halves_odd x a e = ground arith

ltb-halves_even :
    (x a : ℕ)
    → (x % 2 == 1) ≡ false
    → ltb x a ≡ (ltb (x / 2) (a / 2) || ((x / 2 == a / 2) && (a % 2 == 1)))
ltb-halves_even x a e = ground arith

ltb→≢ : (x a : ℕ) → ltb x a ≡ true → (x == a) ≡ false
ltb→≢ x a e = ground arith

-- What an odd or even last bit of x adds.
module _ {t : ElementType} {b : Element} (typed : HasType t b)
    (typed_0 : HasType t (default t)) where
  combine :
      (p q c : Bool)
      → (p ≡ true → q ≡ false)
      → add t (selected t b p) (if q then selected t b c else default t)
        ≡ selected t b (p || (q && c))
  combine true true c h = let e : true ≡ false = h refl in cc
  combine true false c h = add-default typed
  combine false true true h = default-add typed typed_0
  combine false true false h = add-default typed_0
  combine false false c h = add-default typed_0

  add-selected :
      (x a : ℕ)
      → (x % 2 == 1) ≡ false
      → add t
          (selected t b (ltb (x / 2) (a / 2)))
          (if x / 2 == a / 2 then selected t b (a % 2 == 1) else default t)
        ≡ selected t b (ltb x a)
  add-selected x a e =
      combine (ltb (x / 2) (a / 2)) (x / 2 == a / 2) (a % 2 == 1) (ltb→≢ (x / 2) (a / 2))
      ∙ ap (selected t b) (sym (ltb-halves_even x a e))

half_prefix : (x k : ℕ) → x / 2 ^ suc k ≡ x / 2 ^ k / 2
half_prefix x k = ap (λ m. x / m) (pow-suc 2 k) ∙ sym (div-div-eq-div-mul x (2 ^ k) 2)

module _ (t : ElementType) (x : ℕ) where
  -- The result on one more bit.
  abbrev next : ℕ → Element → Element → Element
  next left r o = if test_bit x left then r else add t r o

  next-HasType : (left : ℕ) {r o : Element} → HasType t r → HasType t o → HasType t (next left r o)
  next-HasType left p q = elim (Bool-cases (test_bit x left)) [
    | inl e ↦ rw e p
    | inr e ↦ rw e (add-HasType p q)
  ]

  -- The sum of the results on one more bit.
  next-selected :
      {b : Element} (alpha left : ℕ) {r_0 r_1 o_0 o_1 : Element}
      → HasType t b
      → HasType t (default t)
      → HasType t r_0
      → HasType t r_1
      → HasType t o_0
      → HasType t o_1
      → add t r_0 r_1 ≡ selected t b (ltb (x / 2 ^ suc left) (alpha / 2 ^ suc left))
      → add t o_0 o_1 ≡ (
          if x / 2 ^ suc left == alpha / 2 ^ suc left
          then selected t b (test_bit alpha left)
          else default t)
      → add t (next left r_0 o_0) (next left r_1 o_1)
        ≡ selected t b (ltb (x / 2 ^ left) (alpha / 2 ^ left))
  unfolding test_bit
  next-selected {b} alpha left typed typed_0 p_0 p_1 q_0 q_1 before one =
      let before' = rw (half_prefix x left, half_prefix alpha left) at before in
      let one' = rw (half_prefix x left, half_prefix alpha left) at one in
      elim (Bool-cases (x / 2 ^ left % 2 == 1)) [
        | inl odd ↦ rw odd (
            before'
            ∙ ap (selected t b) (sym (ltb-halves_odd (x / 2 ^ left) (alpha / 2 ^ left) odd)))
        | inr even ↦ rw even (
            add-interchange p_0 q_0 p_1 q_1
            ∙ ap₂ (add t) before' one'
            ∙ add-selected typed typed_0 (x / 2 ^ left) (alpha / 2 ^ left) even)
      ]

module _ (d : Dcf) (t : ElementType) (n : ℕ) (dcf : IsDcf d t n) (b : Element) (typed : HasType t b)
    (alpha x : ℕ) (below : x < 2 ^ n) (key_0 key_1 : DcfKey)
    (shared : LevelsShared d t n alpha b key_0.key key_1.key) where
  evaluate_prefixes-step :
      (key : DcfKey) (left i : ℕ) (r : Element) (out : List Element)
      → i + suc left ≡ n
      → evaluate_at d.dpf t key.key i (x / 2 ^ suc left ∷ []) ≡ ok out
      → evaluate_prefixes d t key x (suc left) i r
        ≡ evaluate_prefixes d t key x left (suc i) (next t x left r (output_at t out))
  unfolding evaluate_prefixes
  evaluate_prefixes-step key left i r out e evaluated =
      let prefix : prefix_at d.log_domain_size x i ≡ x / 2 ^ suc left =
        ap (λ k. prefix_at k x i) dcf.bits
        ∙ ap (λ c. if c then x / 2 ^ (n - i) else 0) (lt→ltb n 128 dcf.bounded)
        ∙ ap (λ k. x / 2 ^ k) {x = n - i} {y = suc left} (omega (arith, e)) in
      let bit : test_bit x (d.log_domain_size - i - 1) ≡ test_bit x left =
        ap (test_bit x) {x = d.log_domain_size - i - 1} {y = left} (omega (arith, dcf.bits, e)) in
      rw (prefix, evaluated, bit) refl

  prefix_below : (i left : ℕ) → i + suc left ≡ n → x / 2 ^ suc left < 2 ^ i
  prefix_below i left e =
      subst (λ k. x / 2 ^ k < 2 ^ i) {x = n - i} {y = suc left} (omega (arith, e))
        (quotient_below n i x (omega (arith, e)) below)

  on_level :
      (i left : ℕ)
      → i + suc left ≡ n
      → (if x / 2 ^ suc left == alpha / 2 ^ (n - i) then value_at t n alpha b i else default t) ≡ (
          if x / 2 ^ suc left == alpha / 2 ^ suc left
          then selected t b (test_bit alpha left)
          else default t)
  on_level i left e =
      ap
        (λ k.
          if x / 2 ^ suc left == alpha / 2 ^ k
          then selected t b (test_bit alpha (k - 1))
          else default t)
        {x = n - i} {y = suc left} (omega (arith, e))
      ∙ ap
          (λ k.
            if x / 2 ^ suc left == alpha / 2 ^ suc left
            then selected t b (test_bit alpha k)
            else default t)
          {x = suc left - 1} {y = left} (omega arith)

  abbrev Shares : ℕ → ℕ → Element → Element → Type 0
  Shares left i r_0 r_1 =
      (s_0 s_1 : Element) × (evaluate_prefixes d t key_0 x left i r_0 ≡ ok s_0)
      × (evaluate_prefixes d t key_1 x left i r_1 ≡ ok s_1)
      × HasType t s_0
      × HasType t s_1
      × (add t s_0 s_1 ≡ selected t b (ltb x alpha))

  evaluate_prefixes-Shares :
      (left i : ℕ) (r_0 r_1 : Element)
      → i + left ≡ n
      → HasType t r_0
      → HasType t r_1
      → add t r_0 r_1 ≡ selected t b (ltb (x / 2 ^ left) (alpha / 2 ^ left))
      → Shares left i r_0 r_1
  unfolding evaluate_prefixes
  evaluate_prefixes-Shares zero i r_0 r_1 e p_0 p_1 total = (
    r_0,
    r_1,
    refl,
    refl,
    p_0,
    p_1,
    total ∙ ap₂ (λ k m. selected t b (ltb k m)) (div-one x) (div-one alpha),
  )
  evaluate_prefixes-Shares (suc left) i r_0 r_1 e p_0 p_1 total =
      let (out_0, out_1, e_0, e_1, q_0, q_1, one) =
        shared i (x / 2 ^ suc left) (omega (arith, e)) (prefix_below i left e) in
      let (s_0, s_1, f_0, f_1, typed_0, typed_1, sum) =
        evaluate_prefixes-Shares left (suc i) (next t x left r_0 (output_at t out_0))
          (next t x left r_1 (output_at t out_1)) (omega (arith, e)) (next-HasType t x left p_0 q_0)
          (next-HasType t x left p_1 q_1)
          (next-selected t x alpha left typed (default-typed dcf.supported) p_0 p_1 q_0 q_1 total
            (one ∙ on_level i left e)) in
      (
        s_0,
        s_1,
        evaluate_prefixes-step key_0 left i r_0 out_0 e e_0 ∙ f_0,
        evaluate_prefixes-step key_1 left i r_1 out_1 e e_1 ∙ f_1,
        typed_0,
        typed_1,
        sum,
      )

  -- Both parties' results are shares of beta if x is below alpha, and of zero otherwise.
  pub evaluate_key-compares :
      alpha < 2 ^ n
      → (s_0 s_1 : Element) × (evaluate_key d t key_0 x ≡ ok s_0)
        × (evaluate_key d t key_1 x ≡ ok s_1)
        × HasType t s_0
        × HasType t s_1
        × (add t s_0 s_1 ≡ selected t b (ltb x alpha))
  unfolding evaluate_key
  evaluate_key-compares inside =
      let zero_typed = default-typed dcf.supported in
      subst
        (λ k.
          (s_0 s_1 : Element) × (evaluate_prefixes d t key_0 x k 0 (default t) ≡ ok s_0)
          × (evaluate_prefixes d t key_1 x k 0 (default t) ≡ ok s_1)
          × HasType t s_0
          × HasType t s_1
          × (add t s_0 s_1 ≡ selected t b (ltb x alpha)))
        (sym dcf.bits)
        (evaluate_prefixes-Shares n 0 (default t) (default t) (omega arith) zero_typed zero_typed
          (rw (div-eq_of_lt below, div-eq_of_lt inside) (add-default zero_typed)))
