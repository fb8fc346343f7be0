-- ===== src/EvaluatePrg/Highway.antt =====
-- The operations of the Highway library on vectors that dpf/internal/evaluate_prg_hwy.cc and
-- dpf/internal/aes_128_fixed_key_hash_hwy.h use, and what the library documents of them. A vector of
-- bytes is read as blocks of 128 bits, a mask as one bit for each 64-bit half of a block.
use distributed_point_functi.Base.{
  ℕ, ◌+◌, ◌*◌, ◌/◌, ◌<◌, ◌≡◌, Bool, false, not, ◌&&◌, ◌||◌, List, length, map, get_or, upto,
  bit_and, bit_or, bit_xor, ◌==◌, if◌then◌else◌, high64, low64, make_uint128, xor,
}

-- `Vector` and `Mask` for the tag with the largest vectors, which have `bytes` bytes.
pub record Highway : Type 1 where
  pub Vector : Type 0
  pub Mask : Type 0
  pub bytes : ℕ
  -- Load from an array at an index, and Store.
  pub load : List ℕ → ℕ → Vector
  pub store : Vector → List ℕ
  pub load_dup_128 : ℕ → Vector
  pub vector_and : Vector → Vector → Vector
  pub vector_or : Vector → Vector → Vector
  pub vector_xor : Vector → Vector → Vector
  -- Shuffle01 on 64-bit lanes.
  pub shuffle_01 : Vector → Vector
  -- v != Zero(d64).
  pub not_zero : Vector → Mask
  pub if_then_else : Mask → Vector → Vector → Vector
  pub if_then_else_zero : Mask → Vector → Vector
  pub aes_round : Vector → Vector → Vector
  pub aes_last_round : Vector → Vector → Vector
  -- FirstN for 64-bit lanes, and MaskedLoad with FirstN for bytes.
  pub first_n : ℕ → Mask
  pub load_first_n : ℕ → List ℕ → ℕ → Vector
  pub mask_and : Mask → Mask → Mask
  pub mask_or : Mask → Mask → Mask
  pub mask_xor : Mask → Mask → Mask
  pub mask_not : Mask → Mask
  pub load_mask_bits : List Bool → Mask
  pub store_mask_bits : Mask → List Bool

abbrev pub blocks_per_vector : Highway → ℕ
blocks_per_vector hw = hw.bytes / 16

-- What the operations do, by block and by half. `block` and `bit` read a register.
pub record IsHighway (hw : Highway) (round last_round : ℕ → ℕ → ℕ) : Type 0 where
  pub block : hw.Vector → ℕ → ℕ
  pub bit : hw.Mask → ℕ → Bool
  pub load_block :
      (xs : List ℕ) (at_index j : ℕ)
      → j < blocks_per_vector hw
      → at_index + j < length xs
      → block (hw.load xs at_index) j ≡ get_or xs (at_index + j) 0
  pub store_blocks : (v : hw.Vector) → hw.store v ≡ map (block v) (upto 0 (blocks_per_vector hw))
  pub dup_block : (x j : ℕ) → j < blocks_per_vector hw → block (hw.load_dup_128 x) j ≡ x
  pub and_block :
      (v w : hw.Vector) (j : ℕ)
      → j < blocks_per_vector hw
      → block (hw.vector_and v w) j ≡ bit_and (block v j) (block w j)
  pub or_block :
      (v w : hw.Vector) (j : ℕ)
      → j < blocks_per_vector hw
      → block (hw.vector_or v w) j ≡ bit_or (block v j) (block w j)
  pub xor_block :
      (v w : hw.Vector) (j : ℕ)
      → j < blocks_per_vector hw
      → block (hw.vector_xor v w) j ≡ bit_xor (block v j) (block w j)
  pub shuffle_block :
      (v : hw.Vector) (j : ℕ)
      → j < blocks_per_vector hw
      → block (hw.shuffle_01 v) j ≡ make_uint128 (low64 (block v j)) (high64 (block v j))
  pub not_zero_low :
      (v : hw.Vector) (j : ℕ)
      → j < blocks_per_vector hw
      → bit (hw.not_zero v) (2 * j) ≡ not (low64 (block v j) == 0)
  pub not_zero_high :
      (v : hw.Vector) (j : ℕ)
      → j < blocks_per_vector hw
      → bit (hw.not_zero v) (2 * j + 1) ≡ not (high64 (block v j) == 0)
  -- A mask that has the same bit for both halves of a block selects the block.
  pub select_block :
      (m : hw.Mask) (v w : hw.Vector) (j : ℕ)
      → j < blocks_per_vector hw
      → bit m (2 * j) ≡ bit m (2 * j + 1)
      → block (hw.if_then_else m v w) j ≡ (if bit m (2 * j) then block v j else block w j)
  pub select_zero_block :
      (m : hw.Mask) (v : hw.Vector) (j : ℕ)
      → j < blocks_per_vector hw
      → bit m (2 * j) ≡ bit m (2 * j + 1)
      → block (hw.if_then_else_zero m v) j ≡ (if bit m (2 * j) then block v j else 0)
  pub round_block :
      (v key : hw.Vector) (j : ℕ)
      → j < blocks_per_vector hw
      → block (hw.aes_round v key) j ≡ round (block v j) (block key j)
  pub last_round_block :
      (v key : hw.Vector) (j : ℕ)
      → j < blocks_per_vector hw
      → block (hw.aes_last_round v key) j ≡ last_round (block v j) (block key j)
  pub first_n_none : (i : ℕ) → i < 2 * blocks_per_vector hw → bit (hw.first_n 0) i ≡ false
  pub load_first_n_block :
      (n : ℕ) (xs : List ℕ) (at_index j : ℕ)
      → j < blocks_per_vector hw
      → j < n
      → at_index + j < length xs
      → block (hw.load_first_n n xs at_index) j ≡ get_or xs (at_index + j) 0
  pub and_bit :
      (m n : hw.Mask) (i : ℕ)
      → i < 2 * blocks_per_vector hw
      → bit (hw.mask_and m n) i ≡ (bit m i && bit n i)
  pub or_bit :
      (m n : hw.Mask) (i : ℕ)
      → i < 2 * blocks_per_vector hw
      → bit (hw.mask_or m n) i ≡ (bit m i || bit n i)
  pub xor_bit :
      (m n : hw.Mask) (i : ℕ)
      → i < 2 * blocks_per_vector hw
      → bit (hw.mask_xor m n) i ≡ xor (bit m i) (bit n i)
  pub not_bit :
      (m : hw.Mask) (i : ℕ) → i < 2 * blocks_per_vector hw → bit (hw.mask_not m) i ≡ not (bit m i)
  pub load_mask_bit :
      (bs : List Bool) (i : ℕ)
      → i < 2 * blocks_per_vector hw
      → i < length bs
      → bit (hw.load_mask_bits bs) i ≡ get_or bs i false
  pub store_mask_bit :
      (m : hw.Mask) (i : ℕ)
      → i < 2 * blocks_per_vector hw
      → get_or (hw.store_mask_bits m) i false ≡ bit m i
