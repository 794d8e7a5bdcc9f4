-- ===== src/EmbrFs/Patch.antt =====
-- The application of a delta to a file of the versioned file system: the chunks that it touches are
-- decoded, changed, encoded and stored again under their ids.
pub mod Apply
use embeddenator_fs.Prelude.{
  ℕ, zero, suc, ◌+◌, ◌-◌, ◌*◌, ◌/◌, ◌%◌, ◌^◌, min, Option, none, some, List, [], ◌∷◌, ◌++◌, map,
  Bool, true, false, not, ◌&&◌, ◌==◌, ltb, leb, if◌then◌else◌, length, get_elem?, set, take, drop,
}
use embeddenator_fs.Prelude.Bytes.{bytes_eq}
use embeddenator_fs.Prelude.Run.{Run, ok, panic, ◌>>=◌}
use embeddenator_fs.Types.{VersionedResult, ok as version_ok, err, wrap64}
use embeddenator_fs.Correction.{ChunkCorrection, compute_hash, new_correction, needs_correction}
use embeddenator_fs.ChunkStore.{VersionedChunk, new_chunk, get, insert as insert_chunk}
use embeddenator_fs.VersionedCorrections.{update_versioned}
use embeddenator_fs.Delta.{
  Change, DeltaType, byte_replace, multi_byte_replace, range_replace, insert, delete, append,
  truncate, AffectedChunks, analyze_delta,
}
use embeddenator_fs.Manifest.{get_file, update_file}
use embeddenator_fs.Manifest.Entry.{VersionedFileEntry}
use embeddenator_fs.Manifest.Entry.Offsets.{build_offset_index}
use embeddenator_fs.EmbrFs.{
  Nothing, Codec, EmbrFsError, file_not_found, chunk_not_found, version_mismatch, invalid_operation,
  FsResult, done, failed, EmbrFs, default_chunk_size, corrected, encode_chunk, decode_chunk,
  next_fs_version, read_file,
}
use embeddenator_fs.EmbrFs.Write.{allocate_chunk_id, chunks_on, from_versions, recorded, write_file}

unfoldable pub is_empty : AffectedChunks → Bool
is_empty a =
    leb (length a.modified_chunks) 0
    && leb (length a.reencoded_chunks) 0
    && leb (length a.new_chunks) 0
    && leb (length a.removed_chunks) 0

-- A byte at an offset, where the chunk has it.
unfoldable pub put_byte : List ℕ → ℕ → ℕ → List ℕ
put_byte bytes offset b = if ltb offset (length bytes) then set bytes offset b else bytes

unfoldable pub put_bytes : List (ℕ × ℕ) → List ℕ → List ℕ
unfolding put_byte
put_bytes [] bytes = bytes
put_bytes ((offset, b) ∷ changes) bytes = put_bytes changes (put_byte bytes offset b)

-- `changes_by_chunk.entry(chunk_idx).or_default().push(..)`
unfoldable pub push_byte : ℕ → ℕ × ℕ → List (ℕ × List (ℕ × ℕ)) → List (ℕ × List (ℕ × ℕ))
push_byte k c [] = (k, c ∷ []) ∷ []
push_byte k c ((j, cs) ∷ m) =
    let later = push_byte k c m in if j == k then (j, cs ++ (c ∷ [])) ∷ m else (j, cs) ∷ later

unfoldable pub bytes_by_chunk : List Change → List (ℕ × List (ℕ × ℕ)) → List (ℕ × List (ℕ × ℕ))
unfolding push_byte
bytes_by_chunk [] m = m
bytes_by_chunk ((offset, old, new) ∷ changes) m =
    bytes_by_chunk changes
      (push_byte (offset / default_chunk_size) (offset % default_chunk_size, new) m)

-- The changes that stand for a range: every new byte at its offset.
unfoldable pub range_changes : ℕ → List ℕ → List Change
range_changes offset [] = []
range_changes offset (b ∷ bytes) = (offset, 0, b) ∷ range_changes (wrap64 (offset + 1)) bytes

-- `new_size - i * chunk_size` on 64 bits.
abbrev pub wrapping_sub : ℕ → ℕ → ℕ
wrapping_sub a b = wrap64 (a + 2 ^ 64 - b)

-- The sizes of the chunks from the `i`-th on: all are full but the last.
unfoldable pub chunk_sizes : ℕ → ℕ → ℕ → List ℕ
chunk_sizes i zero new_size = []
chunk_sizes i (suc zero) new_size = wrapping_sub new_size (i * default_chunk_size) ∷ []
chunk_sizes i (suc (suc n)) new_size = default_chunk_size ∷ chunk_sizes (i + 1) (suc n) new_size

unfoldable pub last_of : List ℕ → Option ℕ
last_of [] = none
last_of (x ∷ []) = some x
last_of (x ∷ y ∷ xs) = last_of (y ∷ xs)

module _ {ℓ} {V E : Type ℓ} (codec : Codec V E) where
  -- The next step, where the one before it succeeded.
  abbrev pub and_then {κ μ} :
      {A : Type κ} {B : Type μ}
      → (A → EmbrFs V E → Run (FsResult B × EmbrFs V E))
      → FsResult A × EmbrFs V E
      → Run (FsResult B × EmbrFs V E)
  and_then next (done a, fs) = next a fs
  and_then next (failed e, fs) = ok (failed e, fs)

  -- The current bytes of a chunk, which are always decoded as in the legacy format.
  unfoldable pub current_bytes : EmbrFs V E → List ℕ → ℕ → FsResult (List ℕ)
  unfolding get corrected
  current_bytes fs path chunk_id = elim (get fs.chunk_store chunk_id) [
    | none ↦ failed (chunk_not_found chunk_id)
    | some (chunk, v) ↦
        done (corrected fs chunk_id (codec.decode_data chunk.vector path chunk.original_size))
  ]

  -- The correction is stored where the chunk needs one.
  unfoldable pub keep_correction :
      ℕ → ChunkCorrection → Nothing → EmbrFs V E → Run (FsResult Nothing × EmbrFs V E)
  unfolding needs_correction update_versioned
  keep_correction chunk_id c u fs =
      if needs_correction c
      then (let r = update_versioned fs.corrections chunk_id c fs.corrections.version in
          ok (from_versions codec r.0, record fs { corrections = r.1 }))
      else ok (done tt, fs)

  unfoldable pub store_chunk : EmbrFs V E → ℕ → VersionedChunk V → FsResult Nothing × EmbrFs V E
  unfolding insert_chunk
  store_chunk fs chunk_id chunk =
      let r = insert_chunk fs.chunk_store chunk_id chunk fs.chunk_store.global_version in
      (from_versions codec r.0, record fs { chunk_store = r.1 })

  -- The bytes of a chunk are encoded, and stored under its id with their correction.
  unfoldable pub store_bytes :
      EmbrFs V E → List ℕ → ℕ → List ℕ → Run (FsResult Nothing × EmbrFs V E)
  unfolding encode_chunk decode_chunk compute_hash store_chunk keep_correction
  store_bytes fs path chunk_id bytes =
      let (vector, fs1) = encode_chunk codec fs bytes path in
      let decoded = decode_chunk codec fs1 vector path (length bytes) in
      let chunk = new_chunk vector (length bytes) (compute_hash codec.sha256 bytes) in
      do
        c ← new_correction codec.sha256 chunk_id bytes decoded
        and_then (keep_correction chunk_id c) (store_chunk fs1 chunk_id chunk)

  -- A change of the bytes of a chunk.
  unfoldable pub change_chunk :
      EmbrFs V E → List ℕ → ℕ → (List ℕ → List ℕ) → Run (FsResult Nothing × EmbrFs V E)
  unfolding current_bytes store_bytes
  change_chunk fs path chunk_id change = elim (current_bytes fs path chunk_id) [
    | failed e ↦ ok (failed e, fs)
    | done bytes ↦ store_bytes fs path chunk_id (change bytes)
  ]

  -- The entry is recorded; the answer is the global version before the change.
  unfoldable pub commit_entry :
      List ℕ → VersionedFileEntry → VersionedFileEntry → EmbrFs V E → Run (FsResult ℕ × EmbrFs V E)
  unfolding update_file recorded
  commit_entry path old entry fs =
      let new_version = fs.global_version in
      let fs1 = next_fs_version fs in
      do
        r ← update_file fs1.manifest path (record entry { version = new_version }) old.version
        ok (recorded codec fs1 new_version r)
