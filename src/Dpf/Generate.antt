-- ===== src/Dpf/Generate.antt =====
-- Key generation (dpf/distributed_point_function.cc): `GenerateNext` and `GenerateKeysIncremental`.
-- The two random seeds are arguments.
use distributed_point_functi.Base.{
  ℕ, zero, suc, ◌-◌, ◌/◌, ◌^◌, Bool, true, false, xor, not, ◌&&◌, List, [], ◌∷◌, ◌++◌, map, none,
  some, Status, ok, invalid_argument, ◌>>=◌, ◌>>◌, guard, ltb, leb, ◌==◌, if◌then◌else◌, length,
  get_or, bit_xor, test_bit,
}
use distributed_point_functi.Aes.{evaluate}
use distributed_point_functi.Proto.{
  get_or_type, ValueType, CorrectionWord, Value, value_not_set, DpfKey, uint128_to_block,
}
use distributed_point_functi.EvaluatePrg.{lowest_bit, clear_lowest_bit}
use distributed_point_functi.Validator.{validate_value}
use distributed_point_functi.Dpf.{
  Dpf, log_domain_size, last_log_domain_size, find, compute_value_correction,
}

-- `seeds`, `control_bits`, and the correction words of both keys; index 0 and 1 are the parties.
pub record State : Type 0 where
  pub seed_0 : ℕ
  pub seed_1 : ℕ
  pub control_0 : Bool
  pub control_1 : Bool
  pub words_0 : List CorrectionWord
  pub words_1 : List CorrectionWord

-- `expanded_seeds[b]` and `expanded_control_bits[b]` of a branch b.
pub record Branch : Type 0 where
  pub seed_0 : ℕ
  pub seed_1 : ℕ
  pub control_0 : Bool
  pub control_1 : Bool

unfoldable pub branch : List ℕ → Branch
branch out = record {
  seed_0 = clear_lowest_bit (get_or out 0 0);
  seed_1 = clear_lowest_bit (get_or out 1 0);
  control_0 = lowest_bit (get_or out 0 0);
  control_1 = lowest_bit (get_or out 1 0);
}

-- Lines 9 and 10: the correction word, without its value correction.
unfoldable pub seed_correction : Bool → Branch → Branch → ℕ
seed_correction current_bit left right =
    let lose = if current_bit then left else right in bit_xor lose.seed_0 lose.seed_1

unfoldable pub control_left_correction : Bool → Branch → Bool
control_left_correction current_bit left =
    xor (xor (xor left.control_0 left.control_1) current_bit) true

unfoldable pub control_right_correction : Bool → Branch → Bool
control_right_correction current_bit right = xor (xor right.control_0 right.control_1) current_bit

-- Lines 11, 12 and 15: the new seeds and control bits, and the word added to both keys.
unfoldable pub next_state : Bool → Branch → Branch → List Value → State → State
unfolding seed_correction control_left_correction control_right_correction
next_state current_bit left right value_correction st =
    let keep = if current_bit then right else left in
    let seed_correct = seed_correction current_bit left right in
    let control_left = control_left_correction current_bit left in
    let control_right = control_right_correction current_bit right in
    let control_keep = if current_bit then control_right else control_left in
    let word : CorrectionWord = record {
      seed = uint128_to_block seed_correct;
      control_left = control_left;
      control_right = control_right;
      value_correction = value_correction;
    } in
    record {
      seed_0 = if st.control_0 then bit_xor keep.seed_0 seed_correct else keep.seed_0;
      seed_1 = if st.control_1 then bit_xor keep.seed_1 seed_correct else keep.seed_1;
      control_0 = xor keep.control_0 (st.control_0 && control_keep);
      control_1 = xor keep.control_1 (st.control_1 && control_keep);
      words_0 = st.words_0 ++ word ∷ [];
      words_1 = st.words_1 ++ word ∷ [];
    }

-- The bit of alpha that decides the branch at a tree level.
unfoldable pub current_bit : Dpf → ℕ → ℕ → Bool
current_bit d level alpha =
    if ltb (last_log_domain_size d - level) 128
    then test_bit alpha (last_log_domain_size d - level)
    else false

-- The part of alpha that belongs to a hierarchy level.
unfoldable pub alpha_prefix : Dpf → ℕ → ℕ → ℕ
alpha_prefix d h alpha =
    let shift_amount = last_log_domain_size d - log_domain_size d h in
    if ltb shift_amount 128 then alpha / 2 ^ shift_amount else 0

-- Lines 13 and 14: the value correction, if the previous tree level has a value.
unfoldable pub level_value_correction : Dpf → ℕ → ℕ → List Value → State → Status (List Value)
level_value_correction d level alpha beta st = elim (find (level - 1) d.tree_to_hierarchy) [
  | none ↦ ok []
  | some h ↦
      compute_value_correction d h st.seed_0 st.seed_1 (alpha_prefix d h alpha)
        (get_or beta h value_not_set) st.control_1
]

-- `GenerateNext`.
unfoldable pub generate_next : Dpf → ℕ → ℕ → List Value → State → Status State
generate_next d level alpha beta st = do
  value_correction ← level_value_correction d level alpha beta st
  left ← evaluate d.prg_left (st.seed_0 ∷ st.seed_1 ∷ []) 2
  right ← evaluate d.prg_right (st.seed_0 ∷ st.seed_1 ∷ []) 2
  ok (next_state (current_bit d level alpha) (branch left) (branch right) value_correction st)

-- The loop over the tree levels, with the number of levels left.
unfoldable pub generate_levels : Dpf → ℕ → ℕ → ℕ → List Value → State → Status State
generate_levels d zero level alpha beta st = ok st
generate_levels d (suc left) level alpha beta st = do
  st' ← generate_next d level alpha beta st
  generate_levels d left (suc level) alpha beta st'

abbrev pub initial_state : ℕ → ℕ → State
initial_state seed_0 seed_1 = record {
  seed_0 = seed_0;
  seed_1 = seed_1;
  control_0 = false;
  control_1 = true;
  words_0 = [];
  words_1 = [];
}

-- `ValidateValue(beta[i], i)` for each hierarchy level.
unfoldable pub validate_betas : List ValueType → List Value → Status (Unit {0})
validate_betas [] beta = ok tt
validate_betas (t ∷ ts) [] = ok tt
validate_betas (t ∷ ts) (b ∷ bs) = do validate_value t b; validate_betas ts bs

abbrev pub value_types : Dpf → List ValueType
value_types d = map (λ p. get_or_type p.value_type) d.parameters

-- The keys of both parties, from the state after the last tree level.
abbrev pub key_of : ℕ → ℕ → List CorrectionWord → List Value → DpfKey
key_of party seed words last = record {
  seed = some (uint128_to_block seed);
  correction_words = words;
  party = party;
  last_level_value_correction = last;
}

-- `GenerateKeysIncremental(alpha, beta)`, with the two seeds that `RAND_bytes` returns.
unfoldable pub generate_keys_incremental : Dpf → ℕ → ℕ → ℕ → List Value → Status (DpfKey × DpfKey)
generate_keys_incremental d random_0 random_1 alpha beta = do
  guard (length beta == length d.parameters) invalid_argument
  validate_betas (value_types d) beta
  guard (not (ltb (last_log_domain_size d) 128 && leb (2 ^ last_log_domain_size d) alpha))
      invalid_argument
  st ← generate_levels d (d.tree_levels_needed - 1) 1 alpha beta (initial_state random_0 random_1)
  let last = length d.parameters - 1
  last_level_value_correction ←
      compute_value_correction d last st.seed_0 st.seed_1 alpha
        (get_or beta (length beta - 1) value_not_set) st.control_1
  ok (
    key_of 0 random_0 st.words_0 last_level_value_correction,
    key_of 1 random_1 st.words_1 last_level_value_correction,
  )
