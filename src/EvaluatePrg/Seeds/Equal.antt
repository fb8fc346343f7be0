-- ===== src/EvaluatePrg/Seeds/Equal.antt =====
-- The two versions of path evaluation (dpf/internal/evaluate_prg_hwy.cc): `EvaluateSeedsHwy` on vectors
-- and `EvaluateSeedsNoHwy` without them.
use distributed_point_functi.Base.{
  ℕ, zero, suc, ◌/◌, ◌%◌, ◌<◌, ◌≤◌, ◌≡◌, refl, sym, ap, ◌∙◌, Bool, true, false, not, ◌||◌, List, [],
  ◌∷◌, length, ok, All, arith, u128_mod, ltb, ◌==◌, length-map, Bool-cases, inl, inr,
}
use distributed_point_functi.Aes.{Aes128FixedKeyHash}
use distributed_point_functi.Aes.Hash.{IsEcb, Prg, hash, evaluate_lem}
use distributed_point_functi.EvaluatePrg.{Correction, evaluate_seeds_no_hwy}
use distributed_point_functi.EvaluatePrg.Loops.{
  Point, seeds_of, controls_of, paths_of, evaluate_seeds_no_hwy_lem,
}
use distributed_point_functi.EvaluatePrg.Highway.{Highway, IsHighway}
use distributed_point_functi.EvaluatePrg.Vectors.Hash.{IsKeySchedule}
use distributed_point_functi.EvaluatePrg.Seeds.{KeySchedule, evaluate_seeds_hwy}
use distributed_point_functi.EvaluatePrg.Seeds.Chunks.{point_at}
use distributed_point_functi.EvaluatePrg.Seeds.Loops.{all_seeds-results}

-- AES_set_encrypt_key succeeds for a key, and its round keys make up the cipher of that key.
pub record Expands (schedule : KeySchedule) (round last_round : ℕ → ℕ → ℕ) (key : ℕ)
    (cipher : ℕ → ℕ) : Type 0 where
  pub succeeds : schedule.status key ≡ 0
  pub keys : IsKeySchedule round last_round (schedule.round_keys key) cipher

point_at-All :
    (ps : List Point) (k : ℕ)
    → All (λ (q : Point). q.lane.seed < u128_mod) ps
    → (point_at ps k).lane.seed < u128_mod
point_at-All [] k all = omega arith
point_at-All (p ∷ ps) zero all = all.0
point_at-All (p ∷ ps) (suc k) all = point_at-All ps k all.1

abbrev hashes : (prg : Aes128FixedKeyHash) (cipher : ℕ → ℕ) → IsEcb prg cipher → Prg prg
hashes prg cipher ecb = record { block = hash cipher; evaluates = evaluate_lem prg cipher ecb }

positive : (n : ℕ) → 0 < n → (n == 0) ≡ false
positive n h = ground arith

at_least : (n : ℕ) → ltb n 16 ≡ false → 16 ≤ n
at_least n e = ground arith

wide :
    (is_aligned : Bool) (bytes : ℕ)
    → (not is_aligned || (ltb bytes 16 || not (bytes % 16 == 0))) ≡ false
    → 0 < bytes / 16
wide is_aligned bytes e = elim (Bool-cases (ltb bytes 16)) [
  | inl narrow ↦
      let clash : true ≡ false = sym (either is_aligned) ∙ rw narrow at e in absurd (ground arith)
  | inr other ↦ omega (arith, at_least bytes other)
]
  where
    either : (b : Bool) → (not b || true) ≡ true
    either true = refl
    either false = refl

-- `EvaluateSeedsHwy` returns what `EvaluateSeedsNoHwy` returns, whatever the width of the vectors and
-- the alignment of the buffers, for at least one seed and between one and 128 levels, with seeds and
-- correction seeds of 128 bits, if the Highway operations do what the library documents and the
-- key schedules of both keys make up the ciphers that the scalar hashes encrypt with, and if memory for
-- the buffer is there.
pub evaluate_seeds_hwy-evaluate_seeds_no_hwy :
    (hw : Highway) (round last_round : ℕ → ℕ → ℕ) (laws : IsHighway hw round last_round)
    (schedule : KeySchedule) (left right : Aes128FixedKeyHash) (cipher_left cipher_right : ℕ → ℕ)
    → IsEcb left cipher_left
    → IsEcb right cipher_right
    → Expands schedule round last_round left.key cipher_left
    → Expands schedule round last_round right.key cipher_right
    → ((x : ℕ) → cipher_left x < u128_mod)
    → ((x : ℕ) → cipher_right x < u128_mod)
    → (is_aligned : Bool) (cs : List Correction) (ps : List Point) (out : List ℕ × List Bool)
    → 0 < length ps
    → 0 < length cs
    → length cs ≤ 128
    → All (λ (c : Correction). c.seed < u128_mod) cs
    → All (λ (q : Point). q.lane.seed < u128_mod) ps
    → evaluate_seeds_hwy hw schedule left right is_aligned true cs
        (seeds_of ps)
        (controls_of ps)
        (paths_of ps)
        out
      ≡ evaluate_seeds_no_hwy left right cs (seeds_of ps) (controls_of ps) (paths_of ps)
unfolding evaluate_seeds_hwy
evaluate_seeds_hwy-evaluate_seeds_no_hwy hw round last_round laws schedule left right cipher_left
      cipher_right ecb_left ecb_right expands_left expands_right below_left below_right is_aligned
      cs ps out some_seeds some_levels levels corrections seeds =
    let unsuitable = not is_aligned || (ltb hw.bytes 16 || not (hw.bytes % 16 == 0)) in
    rw
      (
        positive (length (seeds_of ps))
            (omega (arith, length-map ps (λ (q : Point). q.lane.seed), some_seeds)),
        positive (length cs) some_levels,
      )
      (elim (Bool-cases unsuitable) [
        | inl e ↦ rw e refl
        | inr e ↦
            rw (e, expands_left.succeeds, expands_right.succeeds)
              (ap ok (
                  all_seeds-results hw round last_round laws ps (schedule.round_keys left.key)
                    (schedule.round_keys right.key) cipher_left cipher_right expands_left.keys
                    expands_right.keys below_left below_right cs levels corrections
                    (λ k h. point_at-All ps k seeds) (wide is_aligned hw.bytes e))
                ∙ sym (
                    evaluate_seeds_no_hwy_lem left right (hashes left cipher_left ecb_left)
                      (hashes right cipher_right ecb_right) cs ps))
      ])
