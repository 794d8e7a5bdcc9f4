-- ===== src/Correction/Store.antt =====
-- `CorrectionStore` of src/fs/correction.rs. The u64 counters wrap. `to_bytes` and `from_bytes`
-- only call bincode, and `stats` returns these counters and two floating-point ratios of them.
pub mod RoundTrip
pub mod Counters
use embeddenator_fs.Prelude.{
  ℕ, ◌+◌, ◌%◌, ◌^◌, Option, none, some, List, [], Bool, if◌then◌else◌, length,
}
use embeddenator_fs.Prelude.Assoc.{nat_key, lookup, insert}
use embeddenator_fs.Prelude.Run.{Run, ok, ◌>>=◌}
use embeddenator_fs.Correction.{
  ChunkCorrection, new_correction, needs_correction, storage_size, apply, verify,
}

pub record CorrectionStore : Type 0 where
  pub corrections : List (ℕ × ChunkCorrection)
  pub total_correction_bytes : ℕ
  pub total_original_bytes : ℕ
  pub perfect_chunks : ℕ
  pub corrected_chunks : ℕ

abbrev pub empty : CorrectionStore
empty = record {
  corrections = [];
  total_correction_bytes = 0;
  total_original_bytes = 0;
  perfect_chunks = 0;
  corrected_chunks = 0;
}

abbrev pub wrap64 : ℕ → ℕ
wrap64 n = n % 2 ^ 64

-- The counters and the map after the correction is made.
unfoldable pub record_correction : CorrectionStore → ℕ → List ℕ → ChunkCorrection → CorrectionStore
record_correction s chunk_id original c =
    let counted = record s {
      total_original_bytes = wrap64 (s.total_original_bytes + length original);
    } in
    let sorted =
      if needs_correction c
      then record counted {
        total_correction_bytes = wrap64 (counted.total_correction_bytes + storage_size c);
        corrected_chunks = wrap64 (counted.corrected_chunks + 1);
      }
      else record counted { perfect_chunks = wrap64 (counted.perfect_chunks + 1) } in
    record sorted { corrections = insert chunk_id c sorted.corrections }

unfoldable pub get : CorrectionStore → ℕ → Option ChunkCorrection
get s chunk_id = lookup chunk_id s.corrections

-- `total_chunks` of `stats`.
unfoldable pub total_chunks : CorrectionStore → ℕ
total_chunks s = wrap64 (s.perfect_chunks + s.corrected_chunks)

module _ (sha256 : List ℕ → List ℕ) where
  unfoldable pub add : CorrectionStore → ℕ → List ℕ → List ℕ → Run CorrectionStore
  unfolding record_correction
  add s chunk_id original approximation = do
    c ← new_correction sha256 chunk_id original approximation
    ok (record_correction s chunk_id original c)

  unfoldable pub apply_stored : CorrectionStore → ℕ → List ℕ → Option (List ℕ)
  unfolding get
  apply_stored s chunk_id approximation = elim (get s chunk_id) [
    | none ↦ none
    | some c ↦
        let result = apply c approximation in if verify sha256 c result then some result else none
  ]
