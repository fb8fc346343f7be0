-- ===== src/Values/Bytes/Memory.antt =====
-- The conversion of bytes to objects that are converted directly (dpf/internal/value_type_helpers.h),
-- against the layout of such objects in memory: the bytes of an integer from the lowest one, and the
-- elements of a tuple or an array one after the other.
use mathlib.Core.List.{append_assoc}
use native.Mathlib.Nat.{suc-mul}
use distributed_point_functi.Base.{
  ℕ, zero, suc, ◌+◌, ◌*◌, ◌/◌, ◌^◌, ◌<◌, ◌≡◌, refl, sym, ap, ap₂, ◌∙◌, Bool, true, false, ◌&&◌,
  List, [], ◌∷◌, ◌++◌, ok, length, le→leb, eq→==, All, arith, pow-add, length-append,
  take-append_length, drop-append_length,
}
use distributed_point_functi.Values.{
  ElementType, ElementTypes, Element, Elements, HasType, HasTypes, uint, xor_uint, tuple_of, also,
  number, elements, join, range, is_uint, is_mod_int, is_xor_uint, is_tuple, at_end, and_then,
}
use distributed_point_functi.Values.Bytes.{
  substr, little_endian, bytes_of, uint_from_bytes, can_be_converted_directly,
  all_converted_directly, total_bit_size, total_bit_sizes, size_bytes, directly_from_bytes,
  directly_at, from_bytes, elements_per_block, convert_elements, convert_bytes_to_array_of,
}

-- The bytes of an object in memory, and of an array.
unfoldable mutual
  unfolding bytes_of

  pub to_bytes : ElementType → Element → List ℕ
  to_bytes (uint size) (number x) = bytes_of size x
  to_bytes (xor_uint size) (number x) = bytes_of size x
  to_bytes (tuple_of ts) (elements xs) = to_bytes_each ts xs
  to_bytes _ _ = []

  pub to_bytes_each : ElementTypes → Elements → List ℕ
  to_bytes_each (also t ts) (join x xs) = to_bytes t x ++ to_bytes_each ts xs
  to_bytes_each _ _ = []

unfoldable pub array_to_bytes : ElementType → List Element → List ℕ
unfolding to_bytes
array_to_bytes t [] = []
array_to_bytes t (x ∷ xs) = to_bytes t x ++ array_to_bytes t xs

and_true : (a b : Bool) → (a && b) ≡ true → (a ≡ true) × (b ≡ true)
and_true true b e = (refl, e)
and_true false b e = cc

length-bytes_of : (size x : ℕ) → length (bytes_of size x) ≡ size
unfolding bytes_of
length-bytes_of zero x = refl
length-bytes_of (suc size) x = ap suc (length-bytes_of size (x / 256))

range-suc : (size : ℕ) → range (suc size) ≡ range size * 256
range-suc size =
    ap (◌^◌ 2) {x = 8 * suc size} {y = 8 * size + 8} (omega arith) ∙ pow-add (8 * size) 8

little_endian-bytes_of : (size x : ℕ) → x < range size → little_endian (bytes_of size x) ≡ x
unfolding little_endian bytes_of
little_endian-bytes_of zero x h = omega arith
little_endian-bytes_of (suc size) x h =
    omega (arith, little_endian-bytes_of size (x / 256) (omega (arith, range-suc size, h)))

uint_from_bytes-bytes_of :
    (size x : ℕ) → x < range size → uint_from_bytes size (bytes_of size x) ≡ ok x
unfolding uint_from_bytes
uint_from_bytes-bytes_of size x h =
    rw (eq→== (length (bytes_of size x)) size (length-bytes_of size x))
      (ap ok (little_endian-bytes_of size x h))

substr-middle :
    (before middle after : List ℕ) (size : ℕ)
    → size ≡ length middle
    → substr (before ++ (middle ++ after)) (length before) size ≡ ok middle
unfolding substr
substr-middle before middle after size e =
    rw
      (
        e,
        le→leb (length before) (length (before ++ (middle ++ after)))
            (omega (arith, length-append before (middle ++ after))),
        drop-append_length before (middle ++ after),
      )
      (ap ok (take-append_length middle after))

mutual
  unfolding to_bytes total_bit_size can_be_converted_directly

  length-to_bytes :
      {t : ElementType} {x : Element}
      → HasType t x
      → can_be_converted_directly t ≡ true
      → 8 * length (to_bytes t x) ≡ total_bit_size t
  length-to_bytes (is_uint {size} {a} h) d = omega (arith, length-bytes_of size a)
  length-to_bytes (is_mod_int h k) d = cc
  length-to_bytes (is_xor_uint {size} {a} h) d = omega (arith, length-bytes_of size a)
  length-to_bytes (is_tuple h) d = length-to_bytes_each h d

  length-to_bytes_each :
      {ts : ElementTypes} {xs : Elements}
      → HasTypes ts xs
      → all_converted_directly ts ≡ true
      → 8 * length (to_bytes_each ts xs) ≡ total_bit_sizes ts
  length-to_bytes_each at_end d = omega arith
  length-to_bytes_each (and_then {t} {ts} {x} {xs} h hs) d =
      let (d0, d1) = and_true (can_be_converted_directly t) (all_converted_directly ts) d in
      omega (
        arith,
        length-append (to_bytes t x) (to_bytes_each ts xs),
        length-to_bytes h d0,
        length-to_bytes_each hs d1,
      )

size_bytes-to_bytes :
    {t : ElementType} {x : Element}
    → HasType t x
    → can_be_converted_directly t ≡ true
    → size_bytes t ≡ length (to_bytes t x)
size_bytes-to_bytes h d = omega (arith, length-to_bytes h d)

mutual
  unfolding directly_from_bytes to_bytes can_be_converted_directly

  directly_from_bytes-to_bytes :
      {t : ElementType} {x : Element}
      → HasType t x
      → can_be_converted_directly t ≡ true
      → directly_from_bytes t (to_bytes t x) ≡ ok x
  directly_from_bytes-to_bytes (is_uint {size} {a} h) d =
      rw (uint_from_bytes-bytes_of size a h) refl
  directly_from_bytes-to_bytes (is_mod_int h k) d = cc
  directly_from_bytes-to_bytes (is_xor_uint {size} {a} h) d =
      rw (uint_from_bytes-bytes_of size a h) refl
  directly_from_bytes-to_bytes (is_tuple {ts} {xs} h) d =
      rw
        (
          le→leb (total_bit_sizes ts) (8 * length (to_bytes_each ts xs))
              (omega (arith, length-to_bytes_each h d)),
          directly_at-to_bytes h d [],
        )
        refl

  directly_at-to_bytes :
      {ts : ElementTypes} {xs : Elements}
      → HasTypes ts xs
      → all_converted_directly ts ≡ true
      → (before : List ℕ) → directly_at ts (length before) (before ++ to_bytes_each ts xs) ≡ ok xs
  directly_at-to_bytes at_end d before = refl
  directly_at-to_bytes (and_then {t} {ts} {x} {xs} h hs) d before =
      let (d0, d1) = and_true (can_be_converted_directly t) (all_converted_directly ts) d in
      let size = size_bytes-to_bytes h d0 in
      let next : length before + size_bytes t ≡ length (before ++ to_bytes t x) =
        omega (arith, length-append before (to_bytes t x), size) in
      let rest =
        ap₂ (directly_at ts) next (sym (append_assoc before (to_bytes t x) (to_bytes_each ts xs)))
        ∙ directly_at-to_bytes hs d1 (before ++ to_bytes t x) in
      rw
        (
          substr-middle before (to_bytes t x) (to_bytes_each ts xs) (size_bytes t) size,
          directly_from_bytes-to_bytes h d0,
          rest,
        )
        refl

module _ (t : ElementType) (d : can_be_converted_directly t ≡ true) where
  convert_elements-array_to_bytes :
      (xs : List Element) (i : ℕ) (before : List ℕ)
      → All (HasType t) xs
      → i * size_bytes t ≡ length before
      → convert_elements t (length xs) i (before ++ array_to_bytes t xs) ≡ ok xs
  unfolding convert_elements array_to_bytes from_bytes
  convert_elements-array_to_bytes [] i before all e = refl
  convert_elements-array_to_bytes (x ∷ xs) i before all e =
      let size = size_bytes-to_bytes all.0 d in
      let next : suc i * size_bytes t ≡ length (before ++ to_bytes t x) =
        omega (arith, length-append before (to_bytes t x), size, e, suc-mul i (size_bytes t)) in
      let rest =
        ap (convert_elements t (length xs) (suc i))
          (sym (append_assoc before (to_bytes t x) (array_to_bytes t xs)))
        ∙ convert_elements-array_to_bytes xs (suc i) (before ++ to_bytes t x) all.1 next in
      rw
        (
          e,
          substr-middle before (to_bytes t x) (array_to_bytes t xs) (size_bytes t) size,
          d,
          directly_from_bytes-to_bytes all.0 d,
          rest,
        )
        refl

  length-array_to_bytes :
      (xs : List Element)
      → All (HasType t) xs
      → length (array_to_bytes t xs) ≡ length xs * size_bytes t
  unfolding array_to_bytes
  length-array_to_bytes [] all = omega arith
  length-array_to_bytes (x ∷ xs) all = omega (
    arith,
    length-append (to_bytes t x) (array_to_bytes t xs),
    size_bytes-to_bytes all.0 d,
    length-array_to_bytes xs all.1,
    suc-mul (length xs) (size_bytes t),
  )

  -- If a type is converted directly, as integer types, XorWrappers and tuples of such types are, and
  -- the bytes are those of as many objects of the type, in order, as a block holds, then
  -- `ConvertBytesToArrayOf` succeeds and returns the objects.
  pub convert_bytes_to_array_of-array_to_bytes :
      (xs : List Element)
      → length xs ≡ elements_per_block t
      → All (HasType t) xs
      → convert_bytes_to_array_of t (array_to_bytes t xs) ≡ ok xs
  unfolding convert_bytes_to_array_of
  convert_bytes_to_array_of-array_to_bytes xs full all =
      rw
        (
          d,
          sym full,
          le→leb (length xs * size_bytes t) (length (array_to_bytes t xs))
              (omega (arith, length-array_to_bytes xs all)),
        )
        (convert_elements-array_to_bytes xs 0 [] all (omega arith))
