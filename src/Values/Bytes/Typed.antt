-- ===== src/Values/Bytes/Typed.antt =====
-- Whatever the bytes are, the objects read from them have their type.
use native.Mathlib.Nat.{mod-lt, one-le-pow}
use distributed_point_functi.Base.{
  ℕ, zero, suc, ◌+◌, ◌*◌, ◌/◌, ◌%◌, ◌^◌, ◌<◌, ◌≡◌, refl, ap, subst, subst₂, ◌∙◌, Bool, true, false,
  List, [], ◌∷◌, ok, crash, guard, leb, ◌==◌, length, drop, arith, >>=-eq-ok, ok-injective, err≢ok,
  Bool-cases, inl, inr, All, All-take, All-drop, All-append, pow-add, eq_of_guard,
}
use distributed_point_functi.Values.{
  ElementType, ElementTypes, Element, Elements, uint, mod_int, xor_uint, tuple_of, no_more, also,
  range, HasType, HasTypes, is_uint, is_mod_int, is_xor_uint, is_tuple, at_end, and_then,
  IsSupported, AreSupported, uint_supported, mod_int_supported, xor_uint_supported, tuple_supported,
  none_supported, also_supported,
}
use distributed_point_functi.Values.Bytes.{
  substr, substr_from, little_endian, bytes_of, bytes_of_blocks, uint_from_bytes,
  can_be_converted_directly, total_bit_sizes, size_bytes, directly_from_bytes, directly_at, Source,
  refill_if, sample_and_update_bytes, sample_elements, from_bytes, elements_per_block,
  convert_elements, convert_bytes_to_array_of,
}

abbrev pub IsByte : ℕ → Type 0
IsByte b = b < 256

range_pos : (size : ℕ) → 0 < range size
range_pos size = one-le-pow (8 * size) 2 (omega arith)

range-suc : (n : ℕ) → range (suc n) ≡ 256 * range n
range-suc n = ap (λ t. 2 ^ t) (omega arith) ∙ pow-add 8 (8 * n)

little_endian-lt : (bs : List ℕ) → All IsByte bs → little_endian bs < range (length bs)
unfolding little_endian
little_endian-lt [] h = omega arith
little_endian-lt (b ∷ bs) h = omega (arith, range-suc (length bs), little_endian-lt bs h.1)

uint_from_bytes-lt :
    (size : ℕ) (bytes : List ℕ) {x : ℕ}
    → All IsByte bytes
    → uint_from_bytes size bytes ≡ ok x
    → x < range size
unfolding uint_from_bytes
uint_from_bytes-lt size bytes {x} h e =
    let (_, e1, e2) = >>=-eq-ok (guard (length bytes == size) crash) _ e in
    let full : length bytes ≡ size = eq_of_guard (length bytes) size _ e1 in
    subst₂ (λ a b. a < range b) (ok-injective e2) full (little_endian-lt bytes h)

pub bytes_of-IsByte : (n x : ℕ) → All IsByte (bytes_of n x)
unfolding bytes_of
bytes_of-IsByte zero x = tt
bytes_of-IsByte (suc n) x = (omega arith, bytes_of-IsByte n (x / 256))

pub bytes_of_blocks-IsByte : (xs : List ℕ) → All IsByte (bytes_of_blocks xs)
unfolding bytes_of_blocks
bytes_of_blocks-IsByte [] = tt
bytes_of_blocks-IsByte (x ∷ xs) =
    All-append IsByte (bytes_of 16 x) (bytes_of_blocks xs) (bytes_of-IsByte 16 x)
      (bytes_of_blocks-IsByte xs)

substr-IsByte :
    (bytes : List ℕ) (pos n : ℕ) {part : List ℕ}
    → All IsByte bytes
    → substr bytes pos n ≡ ok part
    → All IsByte part
unfolding substr
substr-IsByte bytes pos n h e =
    let (_, _, e1) = >>=-eq-ok (guard (leb pos (length bytes)) crash) _ e in
    subst (All IsByte) (ok-injective e1)
      (All-take IsByte n (drop pos bytes) (All-drop IsByte pos bytes h))

mutual
  unfolding directly_from_bytes

  directly-typed :
      {t : ElementType} (bytes : List ℕ) {e : Element}
      → IsSupported t
      → All IsByte bytes
      → directly_from_bytes t bytes ≡ ok e
      → HasType t e
  directly-typed bytes (uint_supported {size}) h e =
      let (x, e1, e2) = >>=-eq-ok (uint_from_bytes size bytes) _ e in
      subst (HasType (uint size)) (ok-injective e2) (is_uint (uint_from_bytes-lt size bytes h e1))
  directly-typed bytes (mod_int_supported p m) h e = absurd (err≢ok e)
  directly-typed bytes (xor_uint_supported {size}) h e =
      let (x, e1, e2) = >>=-eq-ok (uint_from_bytes size bytes) _ e in
      subst (HasType (xor_uint size)) (ok-injective e2)
        (is_xor_uint (uint_from_bytes-lt size bytes h e1))
  directly-typed bytes (tuple_supported {ts} s) h e =
      let (_, _, e1) = >>=-eq-ok (guard (leb (total_bit_sizes ts) (8 * length bytes)) crash) _ e in
      let (es, e2, e3) = >>=-eq-ok (directly_at ts 0 bytes) _ e1 in
      subst (HasType (tuple_of ts)) (ok-injective e3) (is_tuple (directly_at-typed 0 bytes s h e2))

  directly_at-typed :
      {ts : ElementTypes} (offset : ℕ) (bytes : List ℕ) {es : Elements}
      → AreSupported ts
      → All IsByte bytes
      → directly_at ts offset bytes ≡ ok es
      → HasTypes ts es
  directly_at-typed offset bytes none_supported h e =
      subst (HasTypes no_more) (ok-injective e) at_end
  directly_at-typed offset bytes (also_supported {t} {ts} s ss) h e =
      let (part, e1, e2) = >>=-eq-ok (substr bytes offset (size_bytes t)) _ e in
      let (x, e3, e4) = >>=-eq-ok (directly_from_bytes t part) _ e2 in
      let (xs, e5, e6) = >>=-eq-ok (directly_at ts (offset + size_bytes t) bytes) _ e4 in
      subst (HasTypes (also t ts)) (ok-injective e6) (
        and_then (directly-typed part s (substr-IsByte bytes offset (size_bytes t) h e1) e3)
          (directly_at-typed (offset + size_bytes t) bytes ss h e5))

mutual
  unfolding sample_and_update_bytes

  sample-typed :
      {t : ElementType} (update : Bool) (s : Source) {r : Element × Source}
      → IsSupported t
      → sample_and_update_bytes t update s ≡ ok r
      → HasType t r.0
  sample-typed update s {r} (uint_supported {size}) e =
      let (s', e1, e2) = >>=-eq-ok (refill_if update size _ s) _ e in
      subst (λ q. HasType (uint size) q.0) (ok-injective e2)
        (is_uint (mod-lt s.block (range_pos size)))
  sample-typed update s {r} (mod_int_supported {size} {n} p m) e =
      let (s', e1, e2) = >>=-eq-ok (refill_if update size _ s) _ e in
      subst (λ q. HasType (mod_int size n) q.0) (ok-injective e2)
        (is_mod_int (mod-lt (s.block % n % range size) p) m)
  sample-typed update s {r} (xor_uint_supported {size}) e =
      let (s', e1, e2) = >>=-eq-ok (refill_if update size _ s) _ e in
      subst (λ q. HasType (xor_uint size) q.0) (ok-injective e2)
        (is_xor_uint (mod-lt s.block (range_pos size)))
  sample-typed update s {r} (tuple_supported {ts} ss) e =
      let (q, e1, e2) = >>=-eq-ok (sample_elements ts update s) _ e in
      subst (λ q. HasType (tuple_of ts) q.0) (ok-injective e2)
        (is_tuple (samples-typed update s ss e1))

  samples-typed :
      {ts : ElementTypes} (update : Bool) (s : Source) {r : Elements × Source}
      → AreSupported ts
      → sample_elements ts update s ≡ ok r
      → HasTypes ts r.0
  samples-typed update s none_supported e =
      subst (λ q. HasTypes no_more q.0) (ok-injective e) at_end
  samples-typed update s (also_supported {t} p none_supported) e =
      let (q, e1, e2) = >>=-eq-ok (sample_and_update_bytes t update s) _ e in
      subst (λ q. HasTypes (also t no_more) q.0) (ok-injective e2)
        (and_then (sample-typed update s p e1) at_end)
  samples-typed update s (also_supported {t} p (also_supported {t = u} {ts} q ps)) e =
      let (x, e1, e2) = >>=-eq-ok (sample_and_update_bytes t true s) _ e in
      let (xs, e3, e4) = >>=-eq-ok (sample_elements (also u ts) update x.1) _ e2 in
      subst (λ q. HasTypes (also t (also u ts)) q.0) (ok-injective e4)
        (and_then (sample-typed true s p e1) (samples-typed update x.1 (also_supported q ps) e3))

from_bytes-typed :
    {t : ElementType} (bytes : List ℕ) {e : Element}
    → IsSupported t
    → All IsByte bytes
    → from_bytes t bytes ≡ ok e
    → HasType t e
unfolding from_bytes
from_bytes-typed {t} bytes s h e = elim (Bool-cases (can_be_converted_directly t)) [
  | inl direct ↦ directly-typed bytes s h (rw direct at e)
  | inr sampled ↦
      let (part, e1, e2) = >>=-eq-ok (substr bytes 0 16) _ (rw sampled at e) in
      let (block, e3, e4) = >>=-eq-ok (uint_from_bytes 16 part) _ e2 in
      let (rest, e5, e6) = >>=-eq-ok (substr_from bytes 16) _ e4 in
      let (x, e7, e8) =
        >>=-eq-ok
          (sample_and_update_bytes t false (record { block = block; remaining_bytes = rest })) _
          e6 in
      subst (HasType t) (ok-injective e8) (sample-typed false _ s e7)
]

-- A list of so many objects of the type.
abbrev pub IsArray : ElementType → ℕ → List Element → Type 0
IsArray t n es = (length es ≡ n) × All (HasType t) es

convert_elements-typed :
    (t : ElementType) (left i : ℕ) (bytes : List ℕ) {es : List Element}
    → IsSupported t
    → All IsByte bytes
    → convert_elements t left i bytes ≡ ok es
    → IsArray t left es
unfolding convert_elements
convert_elements-typed t zero i bytes s h e = subst (IsArray t 0) (ok-injective e) (refl, tt)
convert_elements-typed t (suc left) i bytes s h e =
    let (part, e1, e2) = >>=-eq-ok (substr bytes (i * size_bytes t) (size_bytes t)) _ e in
    let (x, e3, e4) = >>=-eq-ok (from_bytes t part) _ e2 in
    let (xs, e5, e6) = >>=-eq-ok (convert_elements t left (suc i) bytes) _ e4 in
    let rest = convert_elements-typed t left (suc i) bytes s h e5 in
    subst (IsArray t (suc left)) (ok-injective e6) (
      ap suc rest.0,
      (
        from_bytes-typed part s (substr-IsByte bytes (i * size_bytes t) (size_bytes t) h e1) e3,
        rest.1,
      ),
    )

single : (t : ElementType) → can_be_converted_directly t ≡ false → 1 ≡ elements_per_block t
unfolding elements_per_block
single t sampled = rw sampled refl

-- If t is a supported type, every byte is below 256 and the conversion does not crash, then it yields
-- exactly `ElementsPerBlock<T>()` objects of type t.
pub convert_bytes_to_array_of-IsArray :
    (t : ElementType) (bytes : List ℕ) {es : List Element}
    → IsSupported t
    → All IsByte bytes
    → convert_bytes_to_array_of t bytes ≡ ok es
    → IsArray t (elements_per_block t) es
unfolding convert_bytes_to_array_of
convert_bytes_to_array_of-IsArray t bytes s h e = elim (Bool-cases (can_be_converted_directly t)) [
  | inl direct ↦
      let (_, e1, e2) =
        >>=-eq-ok (guard (leb (elements_per_block t * size_bytes t) (length bytes)) crash) _
          (rw direct at e) in
      convert_elements-typed t (elements_per_block t) 0 bytes s h e2
  | inr sampled ↦
      let (x, e1, e2) = >>=-eq-ok (from_bytes t bytes) _ (rw sampled at e) in
      subst (IsArray t (elements_per_block t)) (ok-injective e2)
        (single t sampled, (from_bytes-typed bytes s h e1, tt))
]
