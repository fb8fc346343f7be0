-- ===== src/Values/Samples/Tuples.antt =====
-- Sampling several integers modulo N (dpf/int_mod_n.h) is what `FromBytes` of a tuple of these
-- integers does (dpf/internal/value_type_helpers.h), for base integers of fewer than 128 bits.
use native.Mathlib.Nat.{mod-lt, add-mul, suc-mul, mul_comm}
use distributed_point_functi.Base.{
  ℕ, zero, suc, ◌+◌, ◌*◌, ◌/◌, ◌%◌, ◌≤◌, ◌<◌, ◌≡◌, refl, sym, ap, ◌∙◌, subst, List, [], ◌∷◌, All,
  ok, length, take, drop, arith, length-take, length-drop, drop-drop, le→leb, lt→ltb, eq→==, false,
  >>=-eq-ok, ok-injective, ◌-◌, lt→==, ◌^◌, leb, ltb, not, ◌&&◌, guard, lt_of_guard, crash,
  invalid_argument, int_limit,
}
use distributed_point_functi.Security.{Double, get_num_bytes_required, check_parameters}
use distributed_point_functi.Values.{
  ElementType, ElementTypes, Elements, mod_int, tuple_of, no_more, also, number, elements, empty,
  join, range,
}
use distributed_point_functi.Values.Bytes.{
  little_endian, substr, substr_from, uint_from_bytes, Source, refill, refill_if,
  sample_and_update_bytes, sample_elements, from_bytes, can_be_converted_directly,
}
use distributed_point_functi.Values.Samples.{
  convert_bytes_to, next_random, samples_from, read_randomness, unsafe_sample_from_bytes,
  sample_from_bytes, size_as_int,
}

-- A tuple type of copies of a type, and the tuple of some numbers.
abbrev pub copies : ℕ → ElementType → ElementTypes
copies zero t = no_more
copies (suc k) t = also t (copies k t)

abbrev pub joined : List ℕ → Elements
joined [] = empty
joined (x ∷ xs) = join (number x) (joined xs)

-- The random integers that are read in order from the rest of the bytes.
abbrev integers : ℕ → ℕ → List ℕ → List ℕ
integers size zero bytes = []
integers size (suc k) bytes = little_endian (take size bytes) ∷ integers size k (drop size bytes)

length-samples_from :
    (size n r : ℕ) (xs : List ℕ) → length (samples_from size n r xs) ≡ suc (length xs)
unfolding samples_from
length-samples_from size n r [] = refl
length-samples_from size n r (x ∷ xs) =
    ap suc (length-samples_from size n (next_random size n r x) xs)

samples_from-below :
    (size n r : ℕ) (xs : List ℕ) → 0 < n → All (λ s. s < n) (samples_from size n r xs)
unfolding samples_from
samples_from-below size n r [] h = (mod-lt (r % n % range size) h, tt)
samples_from-below size n r (x ∷ xs) h =
    (mod-lt (r % n % range size) h, samples_from-below size n (next_random size n r x) xs h)

length-integers : (size k : ℕ) (bytes : List ℕ) → length (integers size k bytes) ≡ k
length-integers size zero bytes = refl
length-integers size (suc k) bytes = ap suc (length-integers size k (drop size bytes))

-- A whole integer is there.
part-read :
    (size pos : ℕ) (bytes : List ℕ)
    → pos + size ≤ length bytes
    → (substr bytes pos size ≡ ok (take size (drop pos bytes)))
      × (convert_bytes_to size (take size (drop pos bytes))
          ≡ ok (little_endian (take size (drop pos bytes))))
unfolding substr convert_bytes_to
part-read size pos bytes h = (
  rw (le→leb pos (length bytes) (omega arith)) refl,
  rw
      (eq→== (length (take size (drop pos bytes))) size
        (omega (arith, length-take size (drop pos bytes), length-drop pos bytes)))
      refl,
)

read_randomness-integers :
    (size left i : ℕ) (bytes : List ℕ)
    → 16 + (i + left) * size ≤ length bytes
    → read_randomness size left i bytes ≡ ok (integers size left (drop (16 + i * size) bytes))
unfolding read_randomness
read_randomness-integers size zero i bytes h = refl
read_randomness-integers size (suc left) i bytes h =
    let inside : 16 + i * size + size ≤ length bytes =
      omega (arith, h, add-mul i (suc left) size, suc-mul left size) in
    let (e_0, e_1) = part-read size (16 + i * size) bytes inside in
    let e_2 = read_randomness-integers size left (suc i) bytes (
      subst (λ m. 16 + m * size ≤ length bytes) {x = i + suc left} {y = suc i + left} (omega arith)
        h) in
    rw (e_0, e_1, e_2)
      (ap (λ b. ok (little_endian (take size (drop (16 + i * size) bytes)) ∷ integers size left b))
        (ap (λ m. drop m bytes) {x = 16 + suc i * size} {y = 16 + i * size + size}
            (omega (arith, suc-mul i size))
          ∙ sym (drop-drop size (16 + i * size) bytes)))

uint_from_bytes-convert_bytes_to :
    (size : ℕ) (bytes : List ℕ) → uint_from_bytes size bytes ≡ convert_bytes_to size bytes
unfolding uint_from_bytes convert_bytes_to
uint_from_bytes-convert_bytes_to size bytes = refl

substr_from_lem :
    (bytes : List ℕ) (pos : ℕ) → pos ≤ length bytes → substr_from bytes pos ≡ ok (drop pos bytes)
unfolding substr_from
substr_from_lem bytes pos h = rw (le→leb pos (length bytes) h) refl

refill_lem :
    (size cleared : ℕ) (bytes : List ℕ)
    → size ≤ length bytes
    → refill size cleared bytes
      ≡ ok (record {
        block = cleared + little_endian (take size bytes);
        remaining_bytes = drop size bytes;
      })
unfolding refill substr substr_from uint_from_bytes
refill_lem size cleared bytes h =
    rw
      (
        le→leb 0 (length bytes) (omega arith),
        eq→== (length (take size bytes)) size (omega (arith, length-take size bytes)),
        le→leb size (length bytes) h,
      )
      refl

-- The elements of the tuple.
sample_elements-samples_from :
    (size n k r : ℕ) (bytes : List ℕ)
    → size < 16
    → k * size ≤ length bytes
    → (s : Source) × (sample_elements
          (copies (suc k) (mod_int size n))
          false
          (record { block = r; remaining_bytes = bytes })
        ≡ ok (joined (samples_from size n r (integers size k bytes)), s))
unfolding sample_elements refill_if samples_from next_random
sample_elements-samples_from size n zero r bytes small h = (_, refl)
sample_elements-samples_from size n (suc k) r bytes small h =
    let rest : k * size + size ≤ length bytes = omega (arith, h, suc-mul k size) in
    let (s, e) =
      sample_elements-samples_from size n k
        (r / n * range size % range 16 + little_endian (take size bytes)) (drop size bytes) small
        (omega (arith, length-drop size bytes)) in
    (
      s,
      rw
          (
            lt→ltb size 16 small,
            refill_lem size (r / n * range size % range 16) bytes (omega arith),
            e,
          )
          refl,
    )

pub size_as_int_lem : (k : ℕ) → k < int_limit → size_as_int k ≡ k
unfolding size_as_int
size_as_int_lem k h = ground arith

take-all : (k : ℕ) (xs : List ℕ) → length xs ≡ k → take k xs ≡ xs
take-all zero [] h = refl
take-all zero (x ∷ xs) h = absurd (omega arith)
take-all (suc k) [] h = absurd (omega arith)
take-all (suc k) (x ∷ xs) h = ap (◌∷◌ x) (take-all k xs (omega arith))

module _ (size n k : ℕ) (bytes : List ℕ) (enough : 16 + k * size ≤ length bytes) where
  abbrev first : ℕ
  first = little_endian (take 16 bytes)

  abbrev sampled : List ℕ
  sampled = samples_from size n first (integers size k (drop 16 bytes))

  length-sampled : length sampled ≡ suc k
  length-sampled =
      length-samples_from size n first (integers size k (drop 16 bytes))
      ∙ ap suc (length-integers size k (drop 16 bytes))

  pub unsafe_sample_from_bytes-sampled :
      suc k < int_limit → 0 < n → unsafe_sample_from_bytes size n (suc k) bytes ≡ ok sampled
  unfolding unsafe_sample_from_bytes
  unsafe_sample_from_bytes-sampled small positive =
      let (e_0, e_1) = part-read 16 0 bytes (omega (arith, enough)) in
      let e_2 =
        read_randomness-integers size k 0 bytes
          (subst (λ m. 16 + m * size ≤ length bytes) {x = k} {y = 0 + k} (omega arith) enough) in
      rw
        (
          e_0,
          e_1,
          size_as_int_lem k (omega arith),
          size_as_int_lem (suc k) small,
          e_2,
          lt→ltb 0 n positive,
        )
        (ap (λ m. ok (take (suc k) (samples_from size n first (integers size k (drop m bytes)))))
            {x = 16 + 0 * size} {y = 16} (omega arith)
          ∙ ap ok (take-all (suc k) sampled length-sampled))

  from_bytes-joined :
      size < 16
      → from_bytes (tuple_of (copies (suc k) (mod_int size n))) bytes
        ≡ ok (elements (joined sampled))
  unfolding from_bytes can_be_converted_directly sample_and_update_bytes substr_from
  from_bytes-joined small =
      let (e_0, e_1) = part-read 16 0 bytes (omega (arith, enough)) in
      let (s, e) =
        sample_elements-samples_from size n k first (drop 16 bytes) small
          (omega (arith, length-drop 16 bytes, enough)) in
      rw
        (
          e_0,
          uint_from_bytes-convert_bytes_to 16 (take 16 bytes) ∙ e_1,
          substr_from_lem bytes 16 (omega (arith, enough)),
          e,
        )
        refl

module _ {ℓ} {W : Type ℓ} ⦃double : Double W⦄ (size n : ℕ) (security_parameter : W)
    (bytes : List ℕ) where
  samples_bounded :
      (num_samples : ℕ)
      → check_parameters num_samples (8 * size) n security_parameter ≡ ok tt
      → suc num_samples < int_limit
  unfolding check_parameters
  samples_bounded num_samples e =
      let (_, _, e1) = >>=-eq-ok (guard (ltb 0 num_samples) invalid_argument) _ e in
      let (_, _, e2) = >>=-eq-ok (guard (ltb 0 (8 * size)) invalid_argument) _ e1 in
      let (_, _, e3) = >>=-eq-ok (guard (leb (8 * size) 128) invalid_argument) _ e2 in
      let (_, _, e4) =
        >>=-eq-ok (guard (not (ltb (8 * size) 128 && ltb (2 ^ (8 * size)) n)) invalid_argument) _
          e3 in
      let (_, small, _) = >>=-eq-ok (guard (ltb (num_samples + 1) int_limit) crash) _ e4 in
      omega (arith, lt_of_guard (num_samples + 1) int_limit crash small)

  -- The number of bytes that are demanded.
  pub bytes_demanded :
      (num_samples : ℕ) {num_bytes : ℕ}
      → get_num_bytes_required num_samples (8 * size) n security_parameter ≡ ok num_bytes
      → (num_bytes ≡ 16 + (num_samples - 1) * size) × (suc num_samples < int_limit)
  unfolding get_num_bytes_required
  bytes_demanded num_samples e =
      let (_, valid, e1) =
        >>=-eq-ok (check_parameters num_samples (8 * size) n security_parameter) _ e in
      let (_, _, e2) =
        >>=-eq-ok (guard (ltb (16 + (8 * size + 7) / 8 * (num_samples - 1)) int_limit) crash) _
          e1 in
      (
        sym (ok-injective e2)
            ∙ ap (λ m. 16 + m * (num_samples - 1)) {x = (8 * size + 7) / 8} {y = size} (omega arith)
            ∙ ap (λ m. 16 + m) (mul_comm size (num_samples - 1)),
        samples_bounded num_samples valid,
      )

  -- If the base integer has fewer than 128 bits, the modulus is positive, some samples are asked for,
  -- the parameters are valid for the security parameter and there are at least as many bytes as
  -- `GetNumBytesRequired` returns, then `SampleFromBytes` returns as many samples as asked for, all
  -- below the modulus, and `FromBytes` of a tuple of as many integers modulo N reads the same.
  pub sample_from_bytes-from_bytes :
      (k num_bytes : ℕ)
      → size < 16
      → 0 < n
      → get_num_bytes_required (suc k) (8 * size) n security_parameter ≡ ok num_bytes
      → num_bytes ≤ length bytes
      → (samples : List ℕ) × (sample_from_bytes size n (suc k) security_parameter bytes
          ≡ ok samples)
        × (from_bytes (tuple_of (copies (suc k) (mod_int size n))) bytes
            ≡ ok (elements (joined samples)))
        × (length samples ≡ suc k)
        × All (λ s. s < n) samples
  unfolding sample_from_bytes
  sample_from_bytes-from_bytes k num_bytes small positive e fits =
      let enough : 16 + k * size ≤ length bytes =
        subst (λ m. 16 + m * size ≤ length bytes) {x = suc k - 1} {y = k} (omega arith)
          (omega (arith, (bytes_demanded (suc k) e).0, fits)) in
      let few : suc k < int_limit = omega (arith, (bytes_demanded (suc k) e).1) in
      (
        sampled size n k bytes enough,
        rw
            (
              lt→== 0 (suc k) (omega arith),
              size_as_int_lem (suc k) few,
              e,
              le→leb num_bytes (length bytes) fits,
            )
            (unsafe_sample_from_bytes-sampled size n k bytes enough few positive),
        from_bytes-joined size n k bytes enough small,
        length-sampled size n k bytes enough,
        samples_from-below size n (first size n k bytes enough) (integers size k (drop 16 bytes))
            positive,
      )
