-- ===== src/LargeFile.antt =====
-- src/fs/large_file.rs: the write of a large file, whose vectors are bundled in levels. The entropy of
-- the bytes, a floating-point number, is left out: where it lies is an argument.
pub mod Levels
pub mod Runs
use embeddenator_fs.Prelude.{
  ℕ, zero, suc, ◌+◌, ◌*◌, min, Option, none, some, List, [], ◌∷◌, map, Bool, true, false, ◌&&◌,
  ◌==◌, not, ltb, if◌then◌else◌, length, take, drop,
}
use embeddenator_fs.Prelude.Run.{Run, ok, panic, ◌>>=◌}
use embeddenator_fs.Types.{wrap64}
use embeddenator_fs.Correction.{ChunkCorrection, storage_size}
use embeddenator_fs.Manifest.{get_file, add_file, update_file}
use embeddenator_fs.Manifest.Entry.{VersionedFileEntry, new_entry}
use embeddenator_fs.EmbrFs.{
  Nothing, Codec, EmbrFsError, file_not_found, version_mismatch, FsResult, done, failed, EmbrFs,
  default_chunk_size,
}
use embeddenator_fs.EmbrFs.Write.{
  Encoded, chunks_on, non_printable, with_format, encode_chunks, store_chunks, store_corrections,
  recorded, bundle_chunks_to_root,
}

pub record LargeFileConfig : Type 0 where
  pub adaptive_chunking : Bool
  pub max_bundle_size : ℕ
  pub hierarchical : Bool

abbrev max_bundle_capacity : ℕ
max_bundle_capacity = 100

abbrev pub default_config : LargeFileConfig
default_config = record {
  adaptive_chunking = true;
  max_bundle_size = max_bundle_capacity;
  hierarchical = true;
}

-- Where the entropy of the bytes lies: below 0.3, below 0.6, or above.
pub data Entropy : Type 0 where
  low : Entropy
  medium : Entropy
  high : Entropy

abbrev pub calculate_optimal_chunk_size : Entropy → ℕ
calculate_optimal_chunk_size low = 16 * 1024
calculate_optimal_chunk_size medium = 8 * 1024
calculate_optimal_chunk_size high = 4 * 1024

abbrev pub chunk_size_of : LargeFileConfig → Entropy → ℕ
chunk_size_of config entropy =
    if config.adaptive_chunking then calculate_optimal_chunk_size entropy else default_chunk_size

pub record LargeFileResult : Type 0 where
  pub path : List ℕ
  pub total_bytes : ℕ
  pub chunk_count : ℕ
  pub version : ℕ
  pub correction_bytes : ℕ
  pub hierarchy_levels : ℕ
  pub sub_engram_count : ℕ
  pub chunk_size_used : ℕ

unfoldable pub is_text_data_sample : List ℕ → Bool
unfolding non_printable
is_text_data_sample [] = true
is_text_data_sample (b ∷ bytes) =
    let sample_size = min (length (b ∷ bytes)) 8192 in
    ltb (non_printable (take sample_size (b ∷ bytes)) * 20) sample_size

-- `chunks.iter().map(|c| c.len()).sum()`
unfoldable pub sum_lengths : List (List ℕ) → ℕ
sum_lengths [] = 0
sum_lengths (c ∷ chunks) = wrap64 (length c + sum_lengths chunks)

-- `chunks.first().copied().unwrap_or(&[])`
unfoldable pub first_chunk : List (List ℕ) → List ℕ
first_chunk [] = []
first_chunk (c ∷ chunks) = c

unfoldable pub sum_corrections : List (ℕ × ChunkCorrection) → ℕ
unfolding storage_size
sum_corrections [] = 0
sum_corrections ((id, c) ∷ corrections) = wrap64 (storage_size c + sum_corrections corrections)

module _ {ℓ} {V E : Type ℓ} (codec : Codec V E) where
  -- A group of vectors as one, its first vector bundled with the others.
  unfoldable pub bundle_group : V → List V → V
  bundle_group sub_root [] = sub_root
  bundle_group sub_root (v ∷ group) = bundle_group (codec.bundle sub_root v) group

  -- The groups of `1 + more` vectors, on fuel; each takes a vector at least.
  unfoldable pub groups_on : ℕ → ℕ → List V → List V
  unfolding bundle_group
  groups_on zero more vectors = []
  groups_on (suc fuel) more [] = []
  groups_on (suc fuel) more (v ∷ vectors) =
      bundle_group v (take more vectors) ∷ groups_on fuel more (drop more vectors)

  -- The body of the loop over the levels. A group of no vectors is a panic.
  unfoldable pub next_level : ℕ → List V → Run (List V)
  unfolding groups_on
  next_level zero current = panic
  next_level (suc more) current = ok (groups_on (length current) more current)

  -- `while current_level.len() > max_bundle_size`, on fuel: the number of levels and the last level.
  unfoldable pub build_levels : ℕ → ℕ → ℕ → List V → Run (Option (ℕ × List V))
  unfolding next_level
  build_levels zero max_size levels current = ok none
  build_levels (suc fuel) max_size levels current = elim (ltb max_size (length current)) [
    | false ↦ ok (some (levels, current))
    | true ↦ do next ← next_level max_size current; build_levels fuel max_size (levels + 1) next
  ]

  unfoldable pub large_entry : EmbrFs V E → List ℕ → List (List ℕ) → List ℕ → VersionedFileEntry
  unfolding is_text_data_sample sum_lengths first_chunk
  large_entry fs path chunks ids =
      with_format codec fs
        (new_entry path (is_text_data_sample (first_chunk chunks)) (sum_lengths chunks) ids)

  -- The entry takes the place of the one of the version that is expected, or is added.
  unfoldable pub record_large :
      EmbrFs V E → List ℕ → VersionedFileEntry → Option ℕ → Run (FsResult ℕ × EmbrFs V E)
  unfolding get_file update_file add_file recorded
  record_large fs path entry none = ok (recorded codec fs 0 (add_file fs.manifest entry))
  record_large fs path entry (some expected) = elim (get_file fs.manifest path) [
    | none ↦ ok (failed (file_not_found path), fs)
    | some (existing, v) ↦
        if existing.version == expected
        then (do
          r ← update_file fs.manifest path entry expected
          ok (recorded codec fs (wrap64 (expected + 1)) r))
        else ok (failed (version_mismatch expected existing.version), fs)
  ]

  -- The answer of a write that took `levels` levels, the last of them with `subs` vectors.
  unfoldable pub large_result : List ℕ → List (List ℕ) → ℕ → Encoded V → ℕ → ℕ → ℕ → LargeFileResult
  unfolding sum_lengths sum_corrections
  large_result path chunks size encoded levels subs version = record {
    path = path;
    total_bytes = sum_lengths chunks;
    chunk_count = length encoded.chunk_ids;
    version = version;
    correction_bytes = sum_corrections encoded.corrections_to_add;
    hierarchy_levels = levels;
    sub_engram_count = subs;
    chunk_size_used = size;
  }

  unfoldable pub bundle_large :
      (ℕ → LargeFileResult)
      → List ℕ
      → FsResult ℕ × EmbrFs V E
      → FsResult LargeFileResult × EmbrFs V E
  unfolding bundle_chunks_to_root
  bundle_large answer ids (failed e, fs) = (failed e, fs)
  bundle_large answer ids (done version, fs) =
      (done (answer version), bundle_chunks_to_root codec fs ids)

  unfoldable pub large_after_corrections :
      (ℕ → LargeFileResult)
      → List ℕ
      → List (List ℕ)
      → Option ℕ
      → List ℕ
      → FsResult Nothing × EmbrFs V E
      → Run (FsResult LargeFileResult × EmbrFs V E)
  unfolding large_entry record_large bundle_large
  large_after_corrections answer path chunks expected ids (failed e, fs) = ok (failed e, fs)
  large_after_corrections answer path chunks expected ids (done u, fs) = do
    r ← record_large fs path (large_entry fs path chunks ids) expected
    ok (bundle_large answer ids r)

  unfoldable pub large_after_chunks :
      (ℕ → LargeFileResult)
      → List ℕ
      → List (List ℕ)
      → Option ℕ
      → Encoded V
      → FsResult Nothing × EmbrFs V E
      → Run (FsResult LargeFileResult × EmbrFs V E)
  unfolding store_corrections large_after_corrections
  large_after_chunks answer path chunks expected encoded (failed e, fs) = ok (failed e, fs)
  large_after_chunks answer path chunks expected encoded (done u, fs) =
      large_after_corrections answer path chunks expected encoded.chunk_ids
        (store_corrections codec fs encoded true)

  -- What both writes do with the chunks once they are encoded.
  unfoldable pub commit_large :
      (ℕ → LargeFileResult)
      → EmbrFs V E
      → List ℕ
      → List (List ℕ)
      → Option ℕ
      → Encoded V
      → Run (FsResult LargeFileResult × EmbrFs V E)
  unfolding store_chunks large_after_chunks
  commit_large answer fs path chunks expected encoded =
      large_after_chunks answer path chunks expected encoded (store_chunks codec fs encoded true 0)

  -- The levels of the vectors; no result where the loop over them does not end.
  abbrev pub levels_of : ℕ → Encoded V → Run (Option (ℕ × List V))
  unfolding build_levels
  levels_of max_size encoded =
      let vectors = map (λ update. (update.1).vector) encoded.chunk_updates in
      build_levels (length vectors + 1) max_size 1 vectors

  module _ (path : List ℕ) (chunks : List (List ℕ)) (expected : Option ℕ) (size : ℕ) where
    unfoldable pub commit_flat :
        Encoded V × EmbrFs V E → Run (FsResult LargeFileResult × EmbrFs V E)
    unfolding commit_large large_result
    commit_flat (encoded, fs) =
        commit_large (large_result path chunks size encoded 1 1) fs path chunks expected encoded

    unfoldable pub commit_built :
        Encoded V
        → EmbrFs V E
        → Option (ℕ × List V)
        → Run (Option (FsResult LargeFileResult × EmbrFs V E))
    unfolding commit_large large_result
    commit_built encoded fs none = ok none
    commit_built encoded fs (some (levels, last)) = do
      r ←
          commit_large (large_result path chunks size encoded levels (length last)) fs path chunks
            expected encoded
      ok (some r)

    unfoldable pub commit_levels :
        ℕ → Encoded V × EmbrFs V E → Run (Option (FsResult LargeFileResult × EmbrFs V E))
    unfolding commit_built
    commit_levels max_size (encoded, fs) = levels_of max_size encoded >>= commit_built encoded fs

    unfoldable pub write_flat : EmbrFs V E → Run (FsResult LargeFileResult × EmbrFs V E)
    unfolding encode_chunks commit_flat
    write_flat fs = encode_chunks codec fs path chunks >>= commit_flat

    unfoldable pub write_hierarchical :
        LargeFileConfig → EmbrFs V E → Run (Option (FsResult LargeFileResult × EmbrFs V E))
    unfolding encode_chunks commit_levels
    write_hierarchical config fs =
        encode_chunks codec fs path chunks >>= commit_levels config.max_bundle_size

    -- The write of the chunks, whether `use_hierarchical` holds or not.
    unfoldable pub write_chunks :
        LargeFileConfig → EmbrFs V E → Bool → Run (Option (FsResult LargeFileResult × EmbrFs V E))
    unfolding write_flat write_hierarchical
    write_chunks config fs true = write_hierarchical config fs
    write_chunks config fs false = do r ← write_flat fs; ok (some r)

  unfoldable pub write_large_file :
      LargeFileConfig
      → Entropy
      → EmbrFs V E
      → List ℕ
      → List ℕ
      → Option ℕ
      → Run (Option (FsResult LargeFileResult × EmbrFs V E))
  unfolding write_chunks chunks_on
  write_large_file config entropy fs path bytes expected =
      let size = chunk_size_of config entropy in
      let chunks = chunks_on (length bytes) size bytes in
      write_chunks path chunks expected size config fs
        (config.hierarchical && ltb config.max_bundle_size (length chunks))
