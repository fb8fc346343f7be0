-- ===== src/Values/Bytes.antt =====
-- Reading objects from pseudorandom bytes (dpf/internal/value_type_helpers.h): directly, byte by
-- byte, or by sampling from a block. A failed `CHECK`, and a `substr` that starts past the end, is
-- the error `crash`.
pub mod Typed
pub mod Enough
pub mod Memory
use distributed_point_functi.Base.{
  ℕ, zero, suc, ◌+◌, ◌-◌, ◌*◌, ◌/◌, ◌%◌, ◌^◌, Bool, true, false, ◌&&◌, ◌||◌, List, [], ◌∷◌, ◌++◌,
  Status, ok, err, crash, ◌>>=◌, ◌>>◌, guard, ltb, leb, ◌==◌, if◌then◌else◌, length, take, drop,
}
use distributed_point_functi.Values.{
  ElementType, ElementTypes, Element, Elements, uint, mod_int, xor_uint, tuple_of, no_more, also,
  number, elements, empty, join, range,
}

-- `bytes.substr(pos, n)` and `bytes.substr(pos)`.
unfoldable pub substr : List ℕ → ℕ → ℕ → Status (List ℕ)
substr bytes pos n = do guard (leb pos (length bytes)) crash; ok (take n (drop pos bytes))

unfoldable pub substr_from : List ℕ → ℕ → Status (List ℕ)
substr_from bytes pos = do guard (leb pos (length bytes)) crash; ok (drop pos bytes)

-- The number with the given little-endian bytes.
unfoldable pub little_endian : List ℕ → ℕ
little_endian [] = 0
little_endian (b ∷ bs) = b + 256 * little_endian bs

-- The bytes of a block in memory, and of an array of blocks.
unfoldable pub bytes_of : ℕ → ℕ → List ℕ
bytes_of zero x = []
bytes_of (suc n) x = x % 256 ∷ bytes_of n (x / 256)

unfoldable pub bytes_of_blocks : List ℕ → List ℕ
unfolding bytes_of
bytes_of_blocks [] = []
bytes_of_blocks (x ∷ xs) = bytes_of 16 x ++ bytes_of_blocks xs

-- `DirectlyFromBytes` of an unsigned integer.
unfoldable pub uint_from_bytes : ℕ → List ℕ → Status ℕ
unfolding little_endian
uint_from_bytes size bytes = do guard (length bytes == size) crash; ok (little_endian bytes)

unfoldable mutual
  pub can_be_converted_directly : ElementType → Bool
  can_be_converted_directly (uint size) = true
  can_be_converted_directly (mod_int size n) = false
  can_be_converted_directly (xor_uint size) = true
  can_be_converted_directly (tuple_of ts) = all_converted_directly ts

  pub all_converted_directly : ElementTypes → Bool
  all_converted_directly no_more = true
  all_converted_directly (also t ts) = can_be_converted_directly t && all_converted_directly ts

unfoldable mutual
  pub total_bit_size : ElementType → ℕ
  total_bit_size (uint size) = size * 8
  total_bit_size (mod_int size n) = 0
  total_bit_size (xor_uint size) = size * 8
  total_bit_size (tuple_of ts) = total_bit_sizes ts

  pub total_bit_sizes : ElementTypes → ℕ
  total_bit_sizes no_more = 0
  total_bit_sizes (also t ts) = total_bit_size t + total_bit_sizes ts

-- (TotalBitSize() + 7) / 8.
abbrev pub size_bytes : ElementType → ℕ
size_bytes t = (total_bit_size t + 7) / 8

unfoldable mutual
  unfolding substr uint_from_bytes total_bit_size

  pub directly_from_bytes : ElementType → List ℕ → Status Element
  directly_from_bytes (uint size) bytes = do x ← uint_from_bytes size bytes; ok (number x)
  directly_from_bytes (mod_int size n) bytes = err crash
  directly_from_bytes (xor_uint size) bytes = do x ← uint_from_bytes size bytes; ok (number x)
  directly_from_bytes (tuple_of ts) bytes = do
    guard (leb (total_bit_sizes ts) (8 * length bytes)) crash
    es ← directly_at ts 0 bytes
    ok (elements es)

  -- The elements of a tuple, with the running `offset`.
  pub directly_at : ElementTypes → ℕ → List ℕ → Status Elements
  directly_at no_more offset bytes = ok empty
  directly_at (also t ts) offset bytes = do
    part ← substr bytes offset (size_bytes t)
    e ← directly_from_bytes t part
    es ← directly_at ts (offset + size_bytes t) bytes
    ok (join e es)

-- `block` and `remaining_bytes`, which the sampling functions update.
pub record Source : Type 0 where
  pub block : ℕ
  pub remaining_bytes : List ℕ

-- Fills the cleared low bytes of `block` and advances `remaining_bytes`.
unfoldable pub refill : ℕ → ℕ → List ℕ → Status Source
unfolding substr substr_from uint_from_bytes
refill size cleared bytes = do
  part ← substr bytes 0 size
  x ← uint_from_bytes size part
  rest ← substr_from bytes size
  ok (record { block = cleared + x; remaining_bytes = rest })

unfoldable pub refill_if : Bool → ℕ → ℕ → Source → Status Source
unfolding refill
refill_if update size cleared s = if update then refill size cleared s.remaining_bytes else ok s

unfoldable mutual
  unfolding refill_if

  pub sample_and_update_bytes : ElementType → Bool → Source → Status (Element × Source)
  sample_and_update_bytes (uint size) update s = do
    s' ← refill_if update size (if ltb size 16 then s.block / range size * range size else 0) s
    ok (number (s.block % range size), s')
  sample_and_update_bytes (mod_int size n) update s = do
    s' ← refill_if update size (if ltb size 16 then s.block / n * range size % range 16 else 0) s
    ok (number (s.block % n % range size % n), s')
  sample_and_update_bytes (xor_uint size) update s = do
    s' ← refill_if update size (if ltb size 16 then s.block / range size * range size else 0) s
    ok (number (s.block % range size), s')
  sample_and_update_bytes (tuple_of ts) update s = do
    (es, s') ← sample_elements ts update s
    ok (elements es, s')

  -- Every element but the last updates the bytes; the last one does if the tuple has to.
  pub sample_elements : ElementTypes → Bool → Source → Status (Elements × Source)
  sample_elements no_more update s = ok (empty, s)
  sample_elements (also t no_more) update s = do
    (e, s') ← sample_and_update_bytes t update s
    ok (join e empty, s')
  sample_elements (also t (also u ts)) update s = do
    (e, s') ← sample_and_update_bytes t true s
    (es, s'') ← sample_elements (also u ts) update s'
    ok (join e es, s'')

-- `FromBytes<T>`.
unfoldable pub from_bytes : ElementType → List ℕ → Status Element
from_bytes t bytes = if can_be_converted_directly t then directly_from_bytes t bytes else (do
  part ← substr bytes 0 16
  block ← uint_from_bytes 16 part
  rest ← substr_from bytes 16
  (e, _) ← sample_and_update_bytes t false (record { block = block; remaining_bytes = rest })
  ok e)

-- `ElementsPerBlock<T>()`.
unfoldable pub elements_per_block : ElementType → ℕ
unfolding can_be_converted_directly total_bit_size
elements_per_block t =
    if can_be_converted_directly t && leb (total_bit_size t) 128 then 128 / total_bit_size t else 1

-- The loop of `ConvertBytesToArrayOf<T>`, over the elements left.
unfoldable pub convert_elements : ElementType → ℕ → ℕ → List ℕ → Status (List Element)
convert_elements t zero i bytes = ok []
convert_elements t (suc left) i bytes = do
  part ← substr bytes (i * size_bytes t) (size_bytes t)
  e ← from_bytes t part
  es ← convert_elements t left (suc i) bytes
  ok (e ∷ es)

-- `ConvertBytesToArrayOf<T>`.
unfoldable pub convert_bytes_to_array_of : ElementType → List ℕ → Status (List Element)
convert_bytes_to_array_of t bytes =
    if can_be_converted_directly t
    then (do
      guard (leb (elements_per_block t * size_bytes t) (length bytes)) crash
      convert_elements t (elements_per_block t) 0 bytes)
    else (do e ← from_bytes t bytes; ok (e ∷ []))
