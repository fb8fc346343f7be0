-- ===== src/Values/Bytes/Enough.antt =====
-- With enough bytes, the conversion does not crash.
use distributed_point_functi.Base.{
  ℕ, zero, suc, ◌+◌, ◌*◌, ◌/◌, ◌≤◌, ◌≡◌, refl, sym, ap, subst, Bool, true, false, ◌&&◌, List, [],
  ◌∷◌, ok, leb, length, take, drop, arith, Bool-cases, inl, inr, length-take, length-drop, le→leb,
  eq→==, guard, ◌>>◌, Succeeds, >>=-Succeeds, >>=-Succeeds_at, ◌>>=◌, ◌%◌, guard-Succeeds,
  ok-Succeeds, crash, Status, if◌then◌else◌,
}
use distributed_point_functi.Values.{
  ElementType, ElementTypes, Element, uint, mod_int, xor_uint, tuple_of, no_more, also, number,
  elements, join, empty, range,
}
use distributed_point_functi.Values.Bytes.{
  substr, substr_from, uint_from_bytes, can_be_converted_directly, all_converted_directly,
  total_bit_size, total_bit_sizes, size_bytes, directly_from_bytes, directly_at, Source, refill,
  refill_if, sample_and_update_bytes, sample_elements, from_bytes, elements_per_block,
  convert_elements, convert_bytes_to_array_of,
}

-- A part that is in the string has the length asked for.
substr-Succeeds :
    (bytes : List ℕ) (pos n : ℕ)
    → pos + n ≤ length bytes
    → (part : List ℕ) × (substr bytes pos n ≡ ok part) × (length part ≡ n)
unfolding substr
substr-Succeeds bytes pos n h = (
  take n (drop pos bytes),
  rw (le→leb pos (length bytes) (omega arith)) refl,
  omega (arith, length-take n (drop pos bytes), length-drop pos bytes),
)

uint_from_bytes-Succeeds :
    (size : ℕ) (bytes : List ℕ) → length bytes ≡ size → Succeeds (uint_from_bytes size bytes)
unfolding uint_from_bytes
uint_from_bytes-Succeeds size bytes h =
    >>=-Succeeds (guard-Succeeds crash (eq→== (length bytes) size h)) (λ _ _. ok-Succeeds _)

both : (a b : Bool) → (a && b) ≡ true → (a ≡ true) × (b ≡ true)
both true b e = (refl, e)
both false b e = absurd (ground arith)

-- The sizes of the types that are converted directly are whole bytes.
mutual
  unfolding total_bit_size

  pub whole_bytes : (t : ElementType) → 8 * size_bytes t ≡ total_bit_size t
  whole_bytes (uint size) = omega arith
  whole_bytes (mod_int size n) = omega arith
  whole_bytes (xor_uint size) = omega arith
  whole_bytes (tuple_of ts) = omega (arith, all_whole_bytes ts)

  all_whole_bytes : (ts : ElementTypes) → total_bit_sizes ts / 8 * 8 ≡ total_bit_sizes ts
  all_whole_bytes no_more = omega arith
  all_whole_bytes (also t ts) = omega (arith, whole_bytes t, all_whole_bytes ts)

mutual
  unfolding directly_from_bytes can_be_converted_directly total_bit_size

  directly_from_bytes-Succeeds :
      (t : ElementType) (bytes : List ℕ)
      → can_be_converted_directly t ≡ true
      → length bytes ≡ size_bytes t
      → Succeeds (directly_from_bytes t bytes)
  directly_from_bytes-Succeeds (uint size) bytes d h =
      >>=-Succeeds (uint_from_bytes-Succeeds size bytes (omega arith)) (λ _ _. ok-Succeeds _)
  directly_from_bytes-Succeeds (mod_int size n) bytes d h = absurd (ground arith)
  directly_from_bytes-Succeeds (xor_uint size) bytes d h =
      >>=-Succeeds (uint_from_bytes-Succeeds size bytes (omega arith)) (λ _ _. ok-Succeeds _)
  directly_from_bytes-Succeeds (tuple_of ts) bytes d h =
      >>=-Succeeds
        (guard-Succeeds crash
          (le→leb (total_bit_sizes ts) (8 * length bytes) (omega (arith, all_whole_bytes ts))))
        (λ _ _.
          >>=-Succeeds (directly_at-Succeeds ts 0 bytes d (omega (arith, all_whole_bytes ts)))
            (λ _ _. ok-Succeeds _))

  directly_at-Succeeds :
      (ts : ElementTypes) (offset : ℕ) (bytes : List ℕ)
      → all_converted_directly ts ≡ true
      → 8 * offset + total_bit_sizes ts ≤ 8 * length bytes
      → Succeeds (directly_at ts offset bytes)
  directly_at-Succeeds no_more offset bytes d h = ok-Succeeds _
  directly_at-Succeeds (also t ts) offset bytes d h =
      let (d0, d1) = both (can_be_converted_directly t) _ d in
      let (part, e, len) =
        substr-Succeeds bytes offset (size_bytes t) (omega (arith, whole_bytes t)) in
      >>=-Succeeds_at _ e (
        >>=-Succeeds (directly_from_bytes-Succeeds t part d0 len) (λ _ _.
          >>=-Succeeds
            (directly_at-Succeeds ts (offset + size_bytes t) bytes d1
              (omega (arith, whole_bytes t)))
            (λ _ _. ok-Succeeds _)))

-- The bytes that sampling takes from `remaining_bytes`.
unfoldable mutual
  pub sampled_bytes : ElementType → Bool → ℕ
  sampled_bytes (uint size) update = if update then size else 0
  sampled_bytes (mod_int size n) update = if update then size else 0
  sampled_bytes (xor_uint size) update = if update then size else 0
  sampled_bytes (tuple_of ts) update = sampled_bytes_of ts update

  pub sampled_bytes_of : ElementTypes → Bool → ℕ
  sampled_bytes_of no_more update = 0
  sampled_bytes_of (also t no_more) update = sampled_bytes t update
  sampled_bytes_of (also t (also u ts)) update =
      sampled_bytes t true + sampled_bytes_of (also u ts) update

-- A sampling that succeeds, and takes so many bytes.
abbrev Samples {ℓ} : {A : Type ℓ} → ℕ → Source → Status (A × Source) → Type ℓ
Samples {A = A} n s r =
    (a : A) × (s' : Source) × (r ≡ ok (a, s'))
    × (length s'.remaining_bytes + n ≡ length s.remaining_bytes)

refill_if-Succeeds :
    (update : Bool) (size cleared : ℕ) (s : Source)
    → (if update then size else 0) ≤ length s.remaining_bytes
    → (s' : Source) × (refill_if update size cleared s ≡ ok s')
      × (length s'.remaining_bytes + (if update then size else 0) ≡ length s.remaining_bytes)
unfolding refill_if refill substr_from
refill_if-Succeeds false size cleared s h = (s, refl, omega arith)
refill_if-Succeeds true size cleared s h =
    let (part, e, len) = substr-Succeeds s.remaining_bytes 0 size (omega arith) in
    let (x, e1) = uint_from_bytes-Succeeds size part len in
    (
      record { block = cleared + x; remaining_bytes = drop size s.remaining_bytes },
      rw (e, e1, le→leb size (length s.remaining_bytes) h) refl,
      omega (arith, length-drop size s.remaining_bytes),
    )

mutual
  unfolding sample_and_update_bytes sampled_bytes

  sample_and_update_bytes-Succeeds :
      (t : ElementType) (update : Bool) (s : Source)
      → sampled_bytes t update ≤ length s.remaining_bytes
      → Samples (sampled_bytes t update) s (sample_and_update_bytes t update s)
  sample_and_update_bytes-Succeeds (uint size) update s h =
      let (s', e, len) = refill_if-Succeeds update size _ s h in
      (
        number (s.block % range size),
        s',
        ap (λ q. q >>= λ z. ok (number (s.block % range size), z)) e,
        len,
      )
  sample_and_update_bytes-Succeeds (mod_int size n) update s h =
      let (s', e, len) = refill_if-Succeeds update size _ s h in
      (
        number (s.block % n % range size % n),
        s',
        ap (λ q. q >>= λ z. ok (number (s.block % n % range size % n), z)) e,
        len,
      )
  sample_and_update_bytes-Succeeds (xor_uint size) update s h =
      let (s', e, len) = refill_if-Succeeds update size _ s h in
      (
        number (s.block % range size),
        s',
        ap (λ q. q >>= λ z. ok (number (s.block % range size), z)) e,
        len,
      )
  sample_and_update_bytes-Succeeds (tuple_of ts) update s h =
      let (es, s', e, len) = sample_elements-Succeeds ts update s h in
      (elements es, s', ap (λ q. q >>= λ z. ok (elements z.0, z.1)) e, len)

  sample_elements-Succeeds :
      (ts : ElementTypes) (update : Bool) (s : Source)
      → sampled_bytes_of ts update ≤ length s.remaining_bytes
      → Samples (sampled_bytes_of ts update) s (sample_elements ts update s)
  sample_elements-Succeeds no_more update s h = (empty, s, refl, omega arith)
  sample_elements-Succeeds (also t no_more) update s h =
      let (x, s', e, len) = sample_and_update_bytes-Succeeds t update s h in
      (join x empty, s', ap (λ q. q >>= λ z. ok (join z.0 empty, z.1)) e, len)
  sample_elements-Succeeds (also t (also u ts)) update s h =
      let (x, s', e, len) = sample_and_update_bytes-Succeeds t true s (omega arith) in
      let (xs, s'', e', len') = sample_elements-Succeeds (also u ts) update s' (omega arith) in
      (join x xs, s'', rw (e, e') refl, omega arith)

-- The bytes that `ConvertBytesToArrayOf<T>` reads.
unfoldable pub bytes_read : ElementType → ℕ
bytes_read t =
    if can_be_converted_directly t
    then elements_per_block t * size_bytes t
    else 16 + sampled_bytes t false

from_bytes_direct-Succeeds :
    (t : ElementType) (bytes : List ℕ)
    → can_be_converted_directly t ≡ true
    → length bytes ≡ size_bytes t
    → Succeeds (from_bytes t bytes)
unfolding from_bytes
from_bytes_direct-Succeeds t bytes d h = rw d (directly_from_bytes-Succeeds t bytes d h)

convert_elements-Succeeds :
    (t : ElementType) (left i : ℕ) (bytes : List ℕ)
    → can_be_converted_directly t ≡ true
    → i * size_bytes t + left * size_bytes t ≤ length bytes
    → Succeeds (convert_elements t left i bytes)
unfolding convert_elements
convert_elements-Succeeds t zero i bytes d h = ok-Succeeds _
convert_elements-Succeeds t (suc left) i bytes d h =
    let (part, e, len) = substr-Succeeds bytes (i * size_bytes t) (size_bytes t) (omega arith) in
    >>=-Succeeds_at _ e (
      >>=-Succeeds (from_bytes_direct-Succeeds t part d len) (λ _ _.
        >>=-Succeeds (convert_elements-Succeeds t left (suc i) bytes d (omega arith))
          (λ _ _. ok-Succeeds _)))

from_bytes-Succeeds :
    (t : ElementType) (bytes : List ℕ)
    → can_be_converted_directly t ≡ false
    → 16 + sampled_bytes t false ≤ length bytes
    → Succeeds (from_bytes t bytes)
unfolding from_bytes substr_from
from_bytes-Succeeds t bytes d h =
    let (part, e, len) = substr-Succeeds bytes 0 16 (omega arith) in
    let (block, e1) = uint_from_bytes-Succeeds 16 part len in
    let (x, s', e2, _) =
      sample_and_update_bytes-Succeeds t false
        (record { block = block; remaining_bytes = drop 16 bytes })
        (omega (arith, length-drop 16 bytes)) in
    (x, rw (d, e, e1, le→leb 16 (length bytes) (omega arith), e2) refl)

pub convert_bytes_to_array_of-Succeeds :
    (t : ElementType) (bytes : List ℕ)
    → bytes_read t ≤ length bytes
    → Succeeds (convert_bytes_to_array_of t bytes)
unfolding convert_bytes_to_array_of bytes_read
convert_bytes_to_array_of-Succeeds t bytes h = elim (Bool-cases (can_be_converted_directly t)) [
  | inl direct ↦
      let enough : elements_per_block t * size_bytes t ≤ length bytes = rw direct at h in
      subst (λ b. Succeeds (if b then whole else sampled)) (sym direct)
        (>>=-Succeeds (guard-Succeeds crash (le→leb _ _ enough))
          (λ _ _. convert_elements-Succeeds t (elements_per_block t) 0 bytes direct (omega arith)))
  | inr not_direct ↦
      subst (λ b. Succeeds (if b then whole else sampled)) (sym not_direct)
        (>>=-Succeeds (from_bytes-Succeeds t bytes not_direct (rw not_direct at h))
          (λ _ _. ok-Succeeds _))
]
  where
    whole : Status (List Element)
    whole = do
      guard (leb (elements_per_block t * size_bytes t) (length bytes)) crash
      convert_elements t (elements_per_block t) 0 bytes

    sampled : Status (List Element)
    sampled = do e ← from_bytes t bytes; ok (e ∷ [])
