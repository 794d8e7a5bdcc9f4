-- ===== src/Correction/Verifier.antt =====
-- `ReconstructionVerifier` of src/fs/correction.rs. An iterator of chunks is a list.
-- The subtraction for `missing` is on u64 and wraps, as in a release build.
pub mod Perfect
use embeddenator_fs.Prelude.{
  ℕ, ◌+◌, ◌-◌, ◌*◌, ◌%◌, ◌^◌, Option, none, some, List, [], ◌∷◌, ◌++◌, Bool, true, false, ◌&&◌,
  ◌==◌, if◌then◌else◌, length,
}
use embeddenator_fs.Prelude.Assoc.{nat_key, lookup, insert}
use embeddenator_fs.Prelude.Bytes.{bytes_eq}
use embeddenator_fs.Correction.{compute_hash}

pub record ReconstructionVerifier : Type 0 where
  pub expected_hashes : List (ℕ × List ℕ)

pub record VerificationResult : Type 0 where
  pub verified : ℕ
  pub failed : ℕ
  pub missing : ℕ
  pub failed_ids : List ℕ
  pub perfect : Bool

-- The counters of the loop.
pub record Tally : Type 0 where
  pub verified : ℕ
  pub failed : ℕ
  pub failed_ids : List ℕ

-- a - b on u64
abbrev pub sub64 : ℕ → ℕ → ℕ
sub64 a b = (a % 2 ^ 64 + 2 ^ 64 - b % 2 ^ 64) % 2 ^ 64

module _ (sha256 : List ℕ → List ℕ) where
  -- `collect` into a map: of two chunks with one id the later one counts.
  collect_hashes : List (ℕ × List ℕ) → List (ℕ × List ℕ) → List (ℕ × List ℕ)
  collect_hashes [] m = m
  collect_hashes ((id, bytes) ∷ chunks) m =
      collect_hashes chunks (insert id (compute_hash sha256 bytes) m)

  unfoldable pub from_chunks : List (ℕ × List ℕ) → ReconstructionVerifier
  unfolding collect_hashes
  from_chunks chunks = record { expected_hashes = collect_hashes chunks [] }

  unfoldable pub verify_chunk : ReconstructionVerifier → ℕ → List ℕ → Bool
  verify_chunk v chunk_id bytes = elim (lookup chunk_id v.expected_hashes) [
    | some expected ↦ bytes_eq (compute_hash sha256 bytes) expected
    | none ↦ false
  ]

  verify_step : ReconstructionVerifier → ℕ × List ℕ → Tally → Tally
  verify_step v (id, bytes) t =
      if verify_chunk v id bytes
      then record t { verified = (t.verified + 1) % 2 ^ 64 }
      else record t { failed = (t.failed + 1) % 2 ^ 64; failed_ids = t.failed_ids ++ (id ∷ []) }

  verify_loop : ReconstructionVerifier → List (ℕ × List ℕ) → Tally → Tally
  verify_loop v [] t = t
  verify_loop v (c ∷ chunks) t = verify_loop v chunks (verify_step v c t)

  unfoldable pub verify_all : ReconstructionVerifier → List (ℕ × List ℕ) → VerificationResult
  unfolding verify_loop verify_step
  verify_all v chunks =
      let t = verify_loop v chunks (record { verified = 0; failed = 0; failed_ids = [] }) in
      let missing = sub64 (sub64 (length v.expected_hashes) t.verified) t.failed in
      record {
        verified = t.verified;
        failed = t.failed;
        missing = missing;
        failed_ids = t.failed_ids;
        perfect = t.failed == 0 && missing == 0;
      }
