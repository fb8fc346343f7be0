-- ===== src/Tests/Setup.antt =====
-- A small DPF, with a cipher that is easy to compute in place of AES: 64-bit outputs, two of them in
-- a block, on a domain of four points; and a pair of its keys.
use distributed_point_functi.Base.{
  ℕ, ◌+◌, ◌*◌, ◌%◌, refl, true, false, List, [], ◌∷◌, map, some, length, u128_mod,
}
use distributed_point_functi.Aes.{Aes128FixedKeyHash}
use distributed_point_functi.Aes.Hash.{Prg, ecb-Prg}
use distributed_point_functi.Proto.{value_uint64, Value, integer, DpfKey, CorrectionWord}
use distributed_point_functi.Values.{uint}
use distributed_point_functi.Values.Convert.{to_value_type}
use distributed_point_functi.Dpf.{Dpf}

abbrev pub cipher : ℕ → ℕ → ℕ
cipher k x = (x * 5 + k) % u128_mod

abbrev pub prg : ℕ → Aes128FixedKeyHash
prg k = record {
  key = k;
  encrypt_update =
      λ xs. record { openssl_status = 1; out = map (cipher k) xs; out_len = 16 * length xs };
}

abbrev pub prg_Prg : (k : ℕ) → Prg (prg k)
prg_Prg k = ecb-Prg (prg k) (cipher k) (record { encrypts = λ xs. refl })

abbrev pub dpf : Dpf
dpf = record {
  parameters = record { log_domain_size = 2; value_type = some (to_value_type (uint 8)) } ∷ [];
  tree_levels_needed = 2;
  tree_to_hierarchy = (1, 0) ∷ [];
  hierarchy_to_tree = 1 ∷ [];
  blocks_needed = 1 ∷ [];
  prg_left = prg 3;
  prg_right = prg 4;
  prg_value = prg 7;
  serialize = λ t. 8 ∷ [];
  value_correction_functions = (8 ∷ [], uint 8) ∷ [];
}

abbrev pub beta : List Value
beta = integer (value_uint64 42) ∷ []

-- What key generation returns for alpha = 2 and the seeds 1000 and 2000.
abbrev pub word : CorrectionWord
word = record {
  seed = record { high = 12448; low = 0 };
  control_left = false;
  control_right = true;
  value_correction = [];
}

abbrev pub key : ℕ → ℕ → DpfKey
key party seed = record {
  seed = some (record { high = 0; low = seed });
  correction_words = word ∷ [];
  party = party;
  last_level_value_correction =
      integer (value_uint64 18446744073709551574) ∷ integer (value_uint64 0) ∷ [];
}

abbrev pub points : List ℕ
points = 0 ∷ 1 ∷ 2 ∷ 3 ∷ []
