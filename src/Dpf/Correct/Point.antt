-- ===== src/Dpf/Correct/Point.antt =====
-- One evaluation point: the parties' outputs at the leaf that the point's path leads to.
use native.Mathlib.Decide.{ℕ_discrete}
use native.Mathlib.Nat.{div-add-mod}
use distributed_point_functi.Base.{
  ℕ, ◌+◌, ◌*◌, ◌/◌, ◌%◌, ◌^◌, ◌<◌, ◌≡◌, ◌≢◌, sym, ap, ap₂, ◌∙◌, true, false, xor, List, ok, ◌==◌,
  if◌then◌else◌, get_or, arith, eq→==,
}
use distributed_point_functi.Proto.{Value}
use distributed_point_functi.EvaluatePrg.{Lane}
use distributed_point_functi.Values.{ElementType, Element, IsSupported, add, default}
use distributed_point_functi.Values.Bytes.{elements_per_block}
use distributed_point_functi.Values.Bytes.Typed.{IsArray}
use distributed_point_functi.Values.Correction.{add_at, corrections_of, correct_output}
use distributed_point_functi.Values.Correction.Secret.{
  correct_output_cancels, corrections_of_share, corrections_of-add_at-IsArray, get_or-HasType,
}
use distributed_point_functi.Dpf.Correct.Block.{elements_of, elements_of-IsArray, Parts}

-- What a party returns for an element of the block that a leaf expands to.
abbrev pub output : ElementType → List Element → Lane → ℕ → ℕ → List Element → Element
output t ints n party i es =
    correct_output t n.control_bit party (get_or ints i (default t)) (get_or es i (default t))

different : (x a : ℕ) → x ≢ a → (x == a) ≡ false
different x a ne = ground arith

same_remainder : (x a m : ℕ) → x / 2 ^ m ≡ a / 2 ^ m → x % 2 ^ m ≡ a % 2 ^ m → x ≡ a
same_remainder x a m e r =
    sym (div-add-mod x (2 ^ m)) ∙ ap₂ (λ q s. 2 ^ m * q + s) e r ∙ div-add-mod a (2 ^ m)

equal_tests : (x a y b : ℕ) → (x ≡ a → y ≡ b) → (y ≡ b → x ≡ a) → (x == a) ≡ (y == b)
equal_tests x a y b f g = elim (ℕ_discrete x a) [
  | yes e ↦ eq→== x a e ∙ sym (eq→== y b (f e))
  | no ne ↦ different x a ne ∙ sym (different y b (λ r. ne (g r)))
]

same_point : (x a m : ℕ) → x / 2 ^ m ≡ a / 2 ^ m → (x == a) ≡ (x % 2 ^ m == a % 2 ^ m)
same_point x a m e =
    equal_tests x a (x % 2 ^ m) (a % 2 ^ m) (ap (λ y. y % 2 ^ m)) (same_remainder x a m e)

other_point : (x a m : ℕ) → x / 2 ^ m ≢ a / 2 ^ m → (x == a) ≡ false
other_point x a m ne = different x a (λ e. ne (ap (λ y. y / 2 ^ m) e))

module _ (f : ℕ → ℕ) (t : ElementType) (k m a x : ℕ) (a0 a1 n0 n1 : Lane) (beta : Value)
    (values : List Value) (supported : IsSupported t)
    (parts : Parts f t k a0.seed a1.seed (a % 2 ^ m) beta a1.control_bit values) where
  abbrev pub ints : List Element
  ints =
      corrections_of t a1.control_bit parts.ints_a (add_at t (a % 2 ^ m) parts.beta_t parts.ints_b)

  ints-IsArray : IsArray t (elements_per_block t) ints
  ints-IsArray =
      corrections_of-add_at-IsArray t a1.control_bit (a % 2 ^ m) (elements_per_block t) parts.ints_a
        parts.ints_b parts.typed_beta (elements_of-IsArray f t k a0.seed supported parts.expands_a)
        (elements_of-IsArray f t k a1.seed supported parts.expands_b)

  -- At alpha's leaf: a share of beta at alpha's element, and of zero at the others.
  pub on_leaf :
      xor a0.control_bit a1.control_bit ≡ true
      → x % 2 ^ m < elements_per_block t
      → x / 2 ^ m ≡ a / 2 ^ m
      → add t
          (output t ints a0 0 (x % 2 ^ m) parts.ints_a)
          (output t ints a1 1 (x % 2 ^ m) parts.ints_b)
        ≡ (if x == a then parts.beta_t else default t)
  on_leaf differ inside e = rw (same_point x a m e) (
      corrections_of_share t a0.control_bit a1.control_bit (a % 2 ^ m) (x % 2 ^ m)
        (elements_per_block t) parts.ints_a parts.ints_b differ parts.typed_beta
        (elements_of-IsArray f t k a0.seed supported parts.expands_a)
        (elements_of-IsArray f t k a1.seed supported parts.expands_b) inside)

  -- At another leaf, which the parties share: the outputs cancel.
  pub off_leaf :
      (es : List Element)
      → elements_of f t k n0.seed ≡ ok es
      → n0 ≡ n1
      → x % 2 ^ m < elements_per_block t
      → x / 2 ^ m ≢ a / 2 ^ m
      → add t (output t ints n0 0 (x % 2 ^ m) es) (output t ints n1 1 (x % 2 ^ m) es)
        ≡ (if x == a then parts.beta_t else default t)
  off_leaf es expands same inside ne =
      let typed = elements_of-IsArray f t k n0.seed supported expands in
      let w =
        get_or-HasType t (x % 2 ^ m) ints (default t) ints-IsArray.1
          (omega (arith, ints-IsArray.0)) in
      let e = get_or-HasType t (x % 2 ^ m) es (default t) typed.1 (omega (arith, typed.0)) in
      rw (← same, other_point x a m ne) (correct_output_cancels n0.control_bit w e)
