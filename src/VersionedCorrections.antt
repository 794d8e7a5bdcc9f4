-- ===== src/VersionedCorrections.antt =====
-- src/fs/versioned/corrections.rs: the corrections of the chunks under a version, with a count of
-- the chunks. The other counters of the statistics stay 0 in the source. A method holds the locks
-- from its first line to its last, so that it is one step on the state.
pub mod Counted
mod Runs
use embeddenator_fs.Prelude.{
  ℕ, ◌+◌, ◌-◌, ◌%◌, ◌^◌, Option, none, some, List, [], ◌∷◌, Bool, true, false, ◌==◌, if◌then◌else◌,
  length,
}
use embeddenator_fs.Prelude.Assoc.{lookup, without, insert, nat_key}
use embeddenator_fs.Types.{VersionedResult, ok, err, VersionMismatch, wrap64}
use embeddenator_fs.Correction.{ChunkCorrection}

pub record VersionedCorrectionStore : Type 0 where
  pub corrections : List (ℕ × ChunkCorrection)
  pub total_chunks : ℕ
  pub version : ℕ

abbrev pub new_corrections : VersionedCorrectionStore
new_corrections = record { corrections = []; total_chunks = 0; version = 0 }

unfoldable pub get_versioned : VersionedCorrectionStore → ℕ → Option (ChunkCorrection × ℕ)
get_versioned s chunk_id = elim (lookup chunk_id s.corrections) [
  | none ↦ none
  | some c ↦ some (c, s.version)
]

-- An insertion that counts an id which is not in the map.
unfoldable pub put_counted :
    ℕ → ChunkCorrection → VersionedCorrectionStore → VersionedCorrectionStore
put_counted chunk_id c s = record s {
  corrections = insert chunk_id c s.corrections;
  total_chunks = elim (lookup chunk_id s.corrections) [
    | none ↦ wrap64 (s.total_chunks + 1)
    | some d ↦ s.total_chunks
  ];
}

abbrev pub next_version : VersionedCorrectionStore → VersionedCorrectionStore
next_version s = record s { version = wrap64 (s.version + 1) }

abbrev mismatch {ℓ} : {A : Type ℓ} → VersionedCorrectionStore → ℕ → VersionedResult A
mismatch s expected_version = err (record { expected = expected_version; actual = s.version })

unfoldable pub update_versioned :
    VersionedCorrectionStore
    → ℕ
    → ChunkCorrection
    → ℕ
    → VersionedResult ℕ × VersionedCorrectionStore
update_versioned s chunk_id c expected_version =
    if s.version == expected_version
    then (ok (wrap64 (s.version + 1)), next_version (put_counted chunk_id c s))
    else (mismatch s expected_version, s)

unfoldable pub put_all_counted :
    List (ℕ × ChunkCorrection) → VersionedCorrectionStore → VersionedCorrectionStore
put_all_counted [] s = s
put_all_counted ((chunk_id, c) ∷ updates) s = put_all_counted updates (put_counted chunk_id c s)

unfoldable pub batch_update :
    VersionedCorrectionStore
    → List (ℕ × ChunkCorrection)
    → ℕ
    → VersionedResult ℕ × VersionedCorrectionStore
batch_update s updates expected_version =
    if s.version == expected_version
    then (ok (wrap64 (s.version + 1)), next_version (put_all_counted updates s))
    else (mismatch s expected_version, s)

-- The loop that counts every update.
unfoldable pub put_all_new :
    List (ℕ × ChunkCorrection) → VersionedCorrectionStore → VersionedCorrectionStore
put_all_new [] s = s
put_all_new ((chunk_id, c) ∷ updates) s = put_all_new updates (record s {
  corrections = insert chunk_id c s.corrections;
  total_chunks = wrap64 (s.total_chunks + 1);
})

unfoldable pub batch_insert_corrections :
    VersionedCorrectionStore
    → List (ℕ × ChunkCorrection)
    → VersionedResult ℕ × VersionedCorrectionStore
batch_insert_corrections s updates =
    (ok (wrap64 (s.version + 1)), next_version (put_all_new updates s))

unfoldable pub remove_counted : ℕ → VersionedCorrectionStore → VersionedCorrectionStore
remove_counted chunk_id s = record s {
  corrections = without chunk_id s.corrections;
  total_chunks = elim (lookup chunk_id s.corrections) [
    | none ↦ s.total_chunks
    | some c ↦ s.total_chunks - 1
  ];
}

unfoldable pub remove_correction :
    VersionedCorrectionStore
    → ℕ
    → ℕ
    → VersionedResult (Option ChunkCorrection) × VersionedCorrectionStore
remove_correction s chunk_id expected_version =
    if s.version == expected_version
    then (ok (lookup chunk_id s.corrections), next_version (remove_counted chunk_id s))
    else (mismatch s expected_version, s)
