-- ===== src/Correction/Runs.antt =====
-- Runs of the correction functions, and their theorems at concrete inputs.
use embeddenator_fs.Prelude.{
  ℕ, ◌+◌, ◌/◌, ◌<◌, ◌≡◌, ◌≢◌, ◌↔◌, ◌⊎◌, refl, some, List, [], ◌∷◌, ◌++◌, true, arith, ◌^◌, ◌-◌,
  length, replicate,
}
use embeddenator_fs.Prelude.Assoc.{nat_key, lookup, insert, without}
use embeddenator_fs.Prelude.Bytes.{bytes_eq}
use embeddenator_fs.Prelude.Run.{ok, panic}
use embeddenator_fs.Correction.{
  CorrectionType, bit_flips, block_replace, compute_correction, choose_correction, block_correction,
  diff_positions, diff_positions_from, first_diff, last_diff, apply_correction, compute_hash,
  compute_data_parity, new_correction, needs_correction, is_correction,
}
use embeddenator_fs.Correction.Store.{empty, get, add, apply_stored, record_correction}
use embeddenator_fs.Correction.Store.{CorrectionStore}
use embeddenator_fs.Correction.Store.RoundTrip.{apply_stored-add}
use embeddenator_fs.Correction.Store.Counters.{IsCounted}
use embeddenator_fs.Correction.Verifier.{verify_all, from_chunks, ReconstructionVerifier}
use embeddenator_fs.Correction.Verifier.Perfect.{verify_all-from_chunks, verify_all-missing}
use embeddenator_fs.Correction.{ChunkCorrection}
use embeddenator_fs.Correction.Strategy.{apply-compute_correction, compute_correction-exact_iff}

-- Two sparse changes are stored as flips.
sparse_run :
    compute_correction (1 ∷ 2 ∷ 3 ∷ 4 ∷ []) (1 ∷ 7 ∷ 3 ∷ 5 ∷ [])
    ≡ ok (bit_flips ((1, 5) ∷ (3, 1) ∷ []))
unfolding compute_correction choose_correction diff_positions_from bytes_eq
sparse_run = refl

abbrev forty : List ℕ
forty = replicate 40 7

-- A cluster of twelve changes is stored as a block.
cluster_run :
    compute_correction forty (replicate 10 7 ++ (replicate 12 9 ++ replicate 18 7))
    ≡ ok (block_replace 10 (replicate 12 7))
unfolding compute_correction choose_correction block_correction diff_positions_from bytes_eq
    first_diff last_diff
cluster_run = refl

-- Forty bytes, and an approximation that goes on behind them with a zero and eleven ones.
abbrev overlong : List ℕ
overlong = forty ++ (0 ∷ replicate 11 1)

overlong_run : compute_correction forty overlong ≡ panic
unfolding compute_correction choose_correction block_correction diff_positions_from bytes_eq
    first_diff last_diff
overlong_run = refl

-- A zero at the end of the original is lost.
trailing_zero_run : compute_correction (1 ∷ 2 ∷ 0 ∷ []) (1 ∷ 2 ∷ []) ≡ ok CorrectionType.none
unfolding compute_correction choose_correction diff_positions_from bytes_eq
trailing_zero_run = refl

apply-compute_correction_example :
    (c : CorrectionType) × (compute_correction (1 ∷ 2 ∷ []) (1 ∷ 9 ∷ []) ≡ ok c)
    × (apply_correction c (1 ∷ 9 ∷ []) ≡ 1 ∷ 2 ∷ [])
apply-compute_correction_example = apply-compute_correction (1 ∷ 2 ∷ []) (1 ∷ 9 ∷ []) refl

abbrev short : List ℕ
short = 1 ∷ 2 ∷ []

abbrev padded : List ℕ
padded = 1 ∷ 2 ∷ 0 ∷ []

compute_correction-exact_iff_example :
    (apply_correction CorrectionType.none short ≡ padded)
    ↔ ((length short ≡ length padded) ⊎ (length padded / 2 < length (diff_positions padded short)))
compute_correction-exact_iff_example =
    compute_correction-exact_iff padded short CorrectionType.none trailing_zero_run

abbrev four : List ℕ
four = 1 ∷ 2 ∷ 3 ∷ 4 ∷ []

-- A digest that is long enough: the bytes themselves, and their number.
abbrev digest : List ℕ → List ℕ
digest bytes = length bytes ∷ bytes

apply_stored-add_example :
    (t : CorrectionStore) × (add digest empty 3 short (9 ∷ 9 ∷ []) ≡ ok t)
    × (apply_stored digest t 3 (9 ∷ 9 ∷ []) ≡ some short)
    × ((j : ℕ) → 3 ≢ j → get t j ≡ get empty j)
apply_stored-add_example = apply_stored-add digest empty 3 short (9 ∷ 9 ∷ []) refl

abbrev lossy : ChunkCorrection
lossy = record {
  chunk_id = 3;
  correction = CorrectionType.none;
  hash = 3 ∷ 1 ∷ 2 ∷ 0 ∷ [];
  parity = compute_data_parity padded;
}

abbrev lossy_store : CorrectionStore
lossy_store = record {
  corrections = (3, lossy) ∷ [];
  total_correction_bytes = 0;
  total_original_bytes = 3;
  perfect_chunks = 1;
  corrected_chunks = 0;
}

add_lossy : add digest empty 3 padded short ≡ ok lossy_store
unfolding add new_correction record_correction compute_hash compute_correction choose_correction
    diff_positions_from bytes_eq insert without needs_correction is_correction
add_lossy = refl

empty-IsCounted : IsCounted empty
empty-IsCounted = record { is_map = tt; counted = refl; room = omega arith }

abbrev two_chunks : List (ℕ × List ℕ)
two_chunks = (1, short) ∷ (2, padded) ∷ []

verify_all-from_chunks_example :
    verify_all digest (from_chunks digest two_chunks) two_chunks
    ≡ record { verified = 2; failed = 0; missing = 0; failed_ids = []; perfect = true }
verify_all-from_chunks_example =
    verify_all-from_chunks digest two_chunks (unfold lookup in (refl, (refl, tt))) (omega arith)

abbrev knows_nothing : ReconstructionVerifier
knows_nothing = record { expected_hashes = [] }

-- One chunk more than expected: 2^64 - 1 chunks are reported missing.
verify_all-missing_example :
    ((verify_all digest knows_nothing ((1, short) ∷ [])).verified
        + (verify_all digest knows_nothing ((1, short) ∷ [])).failed
      ≡ 1)
    × ((verify_all digest knows_nothing ((1, short) ∷ [])).missing ≡ 2 ^ 64 - 1)
verify_all-missing_example =
    verify_all-missing digest knows_nothing ((1, short) ∷ []) (omega arith) (omega arith)
