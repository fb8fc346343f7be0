-- ===== src/EvaluatePrg/Seeds.antt =====
-- `EvaluateSeedsHwy` (dpf/internal/evaluate_prg_hwy.cc): the loops over the seeds, four vectors at a
-- time, one vector at a time, and what is left. Positions count blocks_per_vector, where the source counts bytes.
pub mod Chunks
pub mod Covers
pub mod Loops
pub mod Equal
use distributed_point_functi.Base.{
  ℕ, zero, suc, ◌+◌, ◌-◌, ◌*◌, ◌%◌, Bool, not, ◌||◌, List, [], ◌∷◌, ◌++◌, length, take, drop,
  Status, ok, internal, resource_exhausted, ◌>>=◌, ◌>>◌, guard, ◌==◌, ltb, leb, if◌then◌else◌,
}
use distributed_point_functi.Aes.{Aes128FixedKeyHash}
use distributed_point_functi.EvaluatePrg.{Correction, evaluate_seeds_no_hwy}
use distributed_point_functi.EvaluatePrg.Highway.{Highway, blocks_per_vector}
use distributed_point_functi.EvaluatePrg.Vectors.{
  VectorState, mask_from_bools, bools_from_mask, is_bit_set, hash_one_with_key_mask, correct_vector,
  vector_levels,
}

-- The four variables of the first loop.
pub record Four (A : Type 0) : Type 0 where
  pub at_0 : A
  pub at_1 : A
  pub at_2 : A
  pub at_3 : A

abbrev pub map_four : {A B : Type 0} → (A → B) → Four A → Four B
map_four f v = record { at_0 = f v.at_0; at_1 = f v.at_1; at_2 = f v.at_2; at_3 = f v.at_3 }

abbrev pub zip_four : {A B C : Type 0} → (A → B → C) → Four A → Four B → Four C
zip_four f v w = record {
  at_0 = f v.at_0 w.at_0;
  at_1 = f v.at_1 w.at_1;
  at_2 = f v.at_2 w.at_2;
  at_3 = f v.at_3 w.at_3;
}

-- AES_set_encrypt_key of OpenSSL: its status, and the round keys.
pub record KeySchedule : Type 0 where
  pub status : ℕ → ℕ
  pub round_keys : ℕ → List ℕ

-- What a vector writes to `seeds_out` and `control_bits_out`.
unfoldable pub vector_outputs : (hw : Highway) → VectorState hw → List ℕ × List Bool
vector_outputs hw st = (hw.store st.vec, bools_from_mask hw st.control_mask 0)

unfoldable pub append : List ℕ × List Bool → List ℕ × List Bool → List ℕ × List Bool
append out rest = (out.0 ++ rest.0, out.1 ++ rest.1)

module _ (hw : Highway) (round_keys_0 round_keys_1 : List ℕ) where
  -- `HashFourWithKeyMask`.
  unfoldable pub hash_four_with_key_mask : Four hw.Vector → Four hw.Mask → Four hw.Vector
  hash_four_with_key_mask inputs masks =
      zip_four (λ v m. hash_one_with_key_mask hw v m round_keys_0 round_keys_1) inputs masks

  -- The loop over `num_levels` for four vectors.
  unfoldable pub four_levels :
      List Correction → Four hw.Vector → Four (VectorState hw) → Four (VectorState hw)
  unfolding hash_four_with_key_mask
  four_levels [] paths sts = sts
  four_levels (c ∷ cs) paths sts =
      let path_masks = map_four (λ path. is_bit_set hw path (length cs)) paths in
      let hashed =
        hash_four_with_key_mask (map_four (λ (st : VectorState hw). st.vec) sts) path_masks in
      let masks = map_four (λ (st : VectorState hw). st.control_mask) sts in
      four_levels cs paths (record {
        at_0 = correct_vector hw c path_masks.at_0 masks.at_0 hashed.at_0;
        at_1 = correct_vector hw c path_masks.at_1 masks.at_1 hashed.at_1;
        at_2 = correct_vector hw c path_masks.at_2 masks.at_2 hashed.at_2;
        at_3 = correct_vector hw c path_masks.at_3 masks.at_3 hashed.at_3;
      })

  module _ (cs : List Correction) (seeds_in : List ℕ) (control_bits_in : List Bool)
      (paths : List ℕ) where
    -- The state of the vector that starts at a position.
    unfoldable pub load_state : ℕ → VectorState hw
    load_state p = record {
      vec = hw.load seeds_in p;
      control_mask = mask_from_bools hw control_bits_in p 0;
    }

    -- The body of the first loop.
    unfoldable pub four_vectors_at : ℕ → List ℕ × List Bool
    unfolding load_state vector_outputs append four_levels
    four_vectors_at p =
        let positions : Four ℕ = record {
          at_0 = p;
          at_1 = p + 1 * blocks_per_vector hw;
          at_2 = p + 2 * blocks_per_vector hw;
          at_3 = p + 3 * blocks_per_vector hw;
        } in
        let out =
          four_levels cs (map_four (hw.load paths) positions) (map_four load_state positions) in
        append (vector_outputs hw out.at_0) (
          append (vector_outputs hw out.at_1)
            (append (vector_outputs hw out.at_2) (vector_outputs hw out.at_3)))

    -- The body of the second loop.
    unfoldable pub vector_at : ℕ → List ℕ × List Bool
    unfolding load_state vector_outputs
    vector_at p =
        vector_outputs hw
          (vector_levels hw round_keys_0 round_keys_1 cs (hw.load paths p) (load_state p))

    -- The first and the second loop from a position, with fuel: the outputs, and the last position.
    unfoldable pub four_vectors : ℕ → ℕ → (List ℕ × List Bool) × ℕ
    unfolding four_vectors_at append
    four_vectors zero p = (([], []), p)
    four_vectors (suc fuel) p =
        let rest = four_vectors fuel (p + 4 * blocks_per_vector hw) in
        if leb (p + 4 * blocks_per_vector hw) (length seeds_in)
        then (append (four_vectors_at p) rest.0, rest.1)
        else (([], []), p)

    unfoldable pub single_vectors : ℕ → ℕ → (List ℕ × List Bool) × ℕ
    unfolding vector_at append
    single_vectors zero p = (([], []), p)
    single_vectors (suc fuel) p =
        let rest = single_vectors fuel (p + blocks_per_vector hw) in
        if leb (p + blocks_per_vector hw) (length seeds_in)
        then (append (vector_at p) rest.0, rest.1)
        else (([], []), p)

    -- The elements less than a full vector. The halves of `buffer` are two lists, without what is not
    -- initialized.
    unfoldable pub remaining_at : ℕ → List ℕ × List Bool
    remaining_at p =
        let remaining_blocks = length seeds_in - p in
        let st =
          vector_levels hw round_keys_0 round_keys_1 cs
            (hw.load_first_n remaining_blocks (take remaining_blocks (drop p paths)) 0)
            (record {
              vec = hw.load_first_n remaining_blocks (take remaining_blocks (drop p seeds_in)) 0;
              control_mask = mask_from_bools hw control_bits_in p remaining_blocks;
            }) in
        if ltb 0 remaining_blocks
        then (
          take remaining_blocks (hw.store st.vec),
          bools_from_mask hw st.control_mask remaining_blocks,
        )
        else ([], [])

    -- All three parts, with fuel for a vector at each seed.
    unfoldable pub all_seeds : List ℕ × List Bool
    unfolding four_vectors single_vectors remaining_at append
    all_seeds =
        let first = four_vectors (length seeds_in) 0 in
        let second = single_vectors (length seeds_in) first.1 in
        append first.0 (append second.0 (remaining_at second.1))

    -- `remaining_blocks`, where the first and the second loop end.
    unfoldable pub remaining_blocks : ℕ
    remaining_blocks =
        length seeds_in - (single_vectors (length seeds_in) (four_vectors (length seeds_in) 0).1).1

-- `EvaluateSeedsHwy`. `allocates` tells whether AllocateAligned returns a buffer. The last argument is
-- what the outputs hold before, which is left if there are no seeds or levels.
unfoldable pub evaluate_seeds_hwy :
    Highway
    → KeySchedule
    → Aes128FixedKeyHash
    → Aes128FixedKeyHash
    → Bool
    → Bool
    → List Correction
    → List ℕ
    → List Bool
    → List ℕ
    → List ℕ × List Bool
    → Status (List ℕ × List Bool)
unfolding all_seeds remaining_blocks
evaluate_seeds_hwy hw schedule prg_left prg_right is_aligned allocates cs seeds_in control_bits_in
      paths out =
    let keys_0 = schedule.round_keys prg_left.key in
    let keys_1 = schedule.round_keys prg_right.key in
    let remaining = remaining_blocks hw keys_0 keys_1 cs seeds_in control_bits_in paths in
    let on_vectors = (do
      guard (schedule.status prg_left.key == 0) internal
      guard (schedule.status prg_right.key == 0) internal
      guard (allocates || remaining == 0) resource_exhausted
      ok (all_seeds hw keys_0 keys_1 cs seeds_in control_bits_in paths)) in
    if (length seeds_in == 0) || (length cs == 0)
    then ok out
    else (if not is_aligned || (ltb hw.bytes 16 || not (hw.bytes % 16 == 0))
        then evaluate_seeds_no_hwy prg_left prg_right cs seeds_in control_bits_in paths
        else on_vectors)
