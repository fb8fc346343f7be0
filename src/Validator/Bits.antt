-- ===== src/Validator/Bits.antt =====
-- What the bits that `BitsNeeded` returns are enough for.
use Prim.Native.Nat.{min}
use native.Mathlib.Decide.{dec_lt}
use native.Mathlib.Nat.{pow-le-pow_right, le-div_iff_mul-le, mul-le-mul_left, div-mul-le_self}
use distributed_point_functi.Base.{
  ℕ, ◌+◌, ◌-◌, ◌*◌, ◌/◌, ◌^◌, ◌≤◌, ◌<◌, ◌≡◌, sym, ap, ◌∙◌, subst, true, ok, arith, ok-injective,
  pow-add, le→leb, gt→leb, int_limit,
}
use distributed_point_functi.Security.{Double}
use distributed_point_functi.Values.{ElementType, mod_int}
use distributed_point_functi.Values.Convert.{to_value_type}
use distributed_point_functi.Values.Bytes.{
  can_be_converted_directly, total_bit_size, elements_per_block,
}
use distributed_point_functi.Values.Bytes.Enough.{bytes_read, sampled_bytes, whole_bytes}
use distributed_point_functi.Validator.Types.{bits_needed}
use distributed_point_functi.Validator.Simple.{
  IsSimple, direct, single, bits_needed_direct, bits_needed_single,
}

short_fits : (q s b : ℕ) → 8 * s ≡ b → q * b ≤ 128 → q * s ≤ 16 * ((b + 127) / 128)
short_fits q s b e h = elim (dec_lt 0 s) [
  | yes some_bytes ↦ omega (arith, ap (λ (k : ℕ). q * k) e)
  | no empty ↦ omega (arith, ap (λ (k : ℕ). q * k) {x = s} {y = 0} (omega arith))
]

-- A number of bits that a logarithm rounds up.
module _ (t : ElementType) (b c : ℕ) (rounds_up : b ≤ 2 ^ c) where
  below_block : c ≤ 7 → 0 < b → 2 ^ (7 - c) ≤ 128 / b
  below_block small positive = (le-div_iff_mul-le positive).1 (
      omega (
        arith,
        mul-le-mul_left (2 ^ (7 - c)) rounds_up,
        pow-add (7 - c) c,
        ap (◌^◌ 2) {x = 7 - c + c} {y = 7} (omega arith),
      ))

  long_needs : 128 < b → 7 < c
  long_needs long = elim (dec_lt 7 c) [
    | yes more ↦ more
    | no less ↦
        absurd (omega (arith, pow-le-pow_right {n = 2} (omega arith) {i = c} {j = 7} (omega arith)))
  ]

  spare_fits : 0 < b → b ≤ 128 → 2 ^ (7 - min c 7) ≤ 128 / b
  spare_fits positive short = elim (dec_lt 7 c) [
    | yes more ↦
        subst (λ k. 2 ^ k ≤ 128 / b) {x = 0} {y = 7 - min c 7} (omega arith)
          ((le-div_iff_mul-le positive).1 (omega arith))
    | no less ↦
        subst (λ k. 2 ^ k ≤ 128 / b) {x = 7 - c} {y = 7 - min c 7} (omega arith)
          (below_block (omega arith) positive)
  ]

  direct_packs :
      can_be_converted_directly t ≡ true
      → 0 < b
      → total_bit_size t ≡ b
      → 2 ^ (7 - min c 7) ≤ elements_per_block t
  unfolding elements_per_block
  direct_packs d positive same = elim (dec_lt 128 b) [
    | yes long ↦
        rw (d, same, gt→leb b 128 long)
          (subst (λ k. 2 ^ k ≤ 1) {x = 0} {y = 7 - min c 7} (omega (arith, long_needs long))
            (omega arith))
    | no short ↦ rw (d, same, le→leb b 128 (omega arith)) (spare_fits positive (omega arith))
  ]

module _ (t : ElementType) (b : ℕ) where
  direct_fits :
      can_be_converted_directly t ≡ true
      → total_bit_size t ≡ b
      → bytes_read t ≤ 16 * ((b + 127) / 128)
  unfolding bytes_read elements_per_block
  direct_fits d same =
      let bytes : 8 * ((total_bit_size t + 7) / 8) ≡ b = whole_bytes t ∙ same in
      elim (dec_lt 128 b) [
        | yes long ↦
            rw (d, same, gt→leb b 128 long) (omega (arith, ap (λ k. 8 * ((k + 7) / 8)) (sym same)))
        | no short ↦
            rw (d, same, le→leb b 128 (omega arith))
              (short_fits (128 / b) ((b + 7) / 8) b (ap (λ k. 8 * ((k + 7) / 8)) (sym same) ∙ bytes)
                (div-mul-le_self 128 b))
      ]

-- The logarithm of a positive int, rounded up, is not below it.
abbrev pub RoundsUp {ℓ} : {W : Type ℓ} → Double W → Type 0
RoundsUp double =
    (b : ℕ) → 0 < b → b < int_limit → b ≤ 2 ^ double.ceil_int (double.log2 (double.of_int b))

one_in_a_block :
    (size n c b : ℕ) → b ≡ 128 → b ≤ 2 ^ c → 2 ^ (7 - min c 7) ≤ elements_per_block (mod_int size n)
unfolding elements_per_block can_be_converted_directly
one_in_a_block size n c b whole up = elim (dec_lt 6 c) [
  | yes block ↦ subst (λ k. 2 ^ k ≤ 1) {x = 0} {y = 7 - min c 7} (omega arith) (omega arith)
  | no less ↦
      absurd (omega (arith, pow-le-pow_right {n = 2} (omega arith) {i = c} {j = 6} (omega arith)))
]

bytes_in_a_block : (size n b : ℕ) → b ≡ 128 → bytes_read (mod_int size n) ≤ 16 * ((b + 127) / 128)
unfolding bytes_read can_be_converted_directly sampled_bytes
bytes_in_a_block size n b whole = omega arith

module _ {ℓ} {W : Type ℓ} ⦃double : Double W⦄ where
  -- The elements that `Create` leaves to one block are at most `ElementsPerBlock`.
  pub bits_needed-packs :
      (t : ElementType) (s : W) {b : ℕ}
      → RoundsUp double
      → IsSimple t
      → bits_needed (to_value_type t) s ≡ ok b
      → 2 ^ (7 - min (double.ceil_int (double.log2 (double.of_int b))) 7) ≤ elements_per_block t
  bits_needed-packs t s {b} up (direct d positive few) e =
      let same = ok-injective (sym (bits_needed_direct t s d few) ∙ e) in
      direct_packs t b (double.ceil_int (double.log2 (double.of_int b)))
        (up b (omega (arith, same)) (omega (arith, same))) d (omega (arith, same)) same
  bits_needed-packs t s {b} up (single {size} {n}) e =
      let whole = bits_needed_single size n s e in
      one_in_a_block size n (double.ceil_int (double.log2 (double.of_int b))) b whole
        (up b (omega arith) (omega arith))

  -- The bits are an int, and as many whole blocks hold all bytes that a conversion reads.
  pub bits_needed-fits :
      (t : ElementType) (s : W) {b : ℕ}
      → IsSimple t
      → bits_needed (to_value_type t) s ≡ ok b
      → (b < int_limit) × (bytes_read t ≤ 16 * ((b + 127) / 128))
  bits_needed-fits t s {b} (direct d positive few) e =
      let same = ok-injective (sym (bits_needed_direct t s d few) ∙ e) in
      (omega (arith, same), direct_fits t b d same)
  bits_needed-fits t s {b} (single {size} {n}) e =
      let whole = bits_needed_single size n s e in
      (omega (arith, whole), bytes_in_a_block size n b whole)
