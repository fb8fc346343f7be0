-- ===== src/Values/Samples.antt =====
-- Sampling several integers modulo N at once (dpf/int_mod_n.h): `UnsafeSampleFromBytes` and
-- `SampleFromBytes` of IntModNImpl, with `sizeof(BaseInteger)` and the modulus as arguments.
pub mod Tuples
pub mod Errors
use Prim.Native.Nat.{bit_or}
use distributed_point_functi.Base.{
  ℕ, zero, suc, ◌+◌, ◌*◌, ◌/◌, ◌%◌, ◌^◌, List, [], ◌∷◌, Status, ok, err, crash, invalid_argument,
  ◌>>=◌, ◌>>◌, guard, not, ltb, leb, ◌==◌, if◌then◌else◌, length, int_limit, take, ◌||◌,
}
use distributed_point_functi.Security.{Double, get_num_bytes_required}
use distributed_point_functi.Values.{range}
use distributed_point_functi.Values.Bytes.{little_endian, substr}

-- `IntModNBase::ConvertBytesTo<T>` on a little-endian machine.
unfoldable pub convert_bytes_to : ℕ → List ℕ → Status ℕ
convert_bytes_to size bytes = do guard (length bytes == size) crash; ok (little_endian bytes)

-- `IntModNImpl(static_cast<BaseInteger>(r % kModulus))`.
abbrev pub sample : ℕ → ℕ → ℕ → ℕ
sample size n r = r % n % range size % n

-- The quotient of r makes room for the next random integer, which fills the cleared low bytes. An
-- integer of 128 bits is not given any room.
unfoldable pub next_random : ℕ → ℕ → ℕ → ℕ → ℕ
next_random size n r x = if ltb size 16 then r / n * range size % range 16 + x else bit_or (r / n) x

-- The loop over the samples, of which there is one more than random integers.
unfoldable pub samples_from : ℕ → ℕ → ℕ → List ℕ → List ℕ
samples_from size n r [] = sample size n r ∷ []
samples_from size n r (x ∷ xs) = sample size n r ∷ samples_from size n (next_random size n r x) xs

-- The loop that reads `randomness`, from index i.
unfoldable pub read_randomness : ℕ → ℕ → ℕ → List ℕ → Status (List ℕ)
read_randomness size zero i bytes = ok []
read_randomness size (suc left) i bytes = do
  part ← substr bytes (16 + i * size) size
  x ← convert_bytes_to size part
  xs ← read_randomness size left (suc i) bytes
  ok (x ∷ xs)

-- The size of a span as an int; where that is negative, it is 0, with which loops and checks do the same.
unfoldable pub size_as_int : ℕ → ℕ
size_as_int size =
    let narrowed = size % (2 * int_limit) in if ltb narrowed int_limit then narrowed else 0

-- `UnsafeSampleFromBytes`: the samples that are written, by division by the modulus. Without samples
-- the size of `randomness` wraps around, and it cannot be allocated.
unfoldable pub unsafe_sample_from_bytes : ℕ → ℕ → ℕ → List ℕ → Status (List ℕ)
unfolding size_as_int
unsafe_sample_from_bytes size n zero bytes = err crash
unsafe_sample_from_bytes size n (suc k) bytes = do
  part ← substr bytes 0 16
  r ← convert_bytes_to 16 part
  randomness ← read_randomness size (size_as_int k) 0 bytes
  let num_samples = size_as_int (suc k)
  guard (ltb 0 n || num_samples == 0) crash
  ok (take num_samples (samples_from size n r randomness))

module _ {ℓ} {W : Type ℓ} ⦃double : Double W⦄ where
  -- `SampleFromBytes`.
  unfoldable pub sample_from_bytes : ℕ → ℕ → ℕ → W → List ℕ → Status (List ℕ)
  sample_from_bytes size n num_samples security_parameter bytes = do
    guard (not (num_samples == 0)) invalid_argument
    num_bytes ← get_num_bytes_required (size_as_int num_samples) (8 * size) n security_parameter
    guard (leb num_bytes (length bytes)) invalid_argument
    unsafe_sample_from_bytes size n num_samples bytes
