-- ===== src/EmbrFs/Write.antt =====
-- The writes: the check of the version, the loop that encodes the chunks, and what is stored.
use embeddenator_fs.Prelude.{
  ℕ, zero, suc, ◌+◌, ◌*◌, min, Option, none, some, List, [], ◌∷◌, Bool, true, false, not, ◌&&◌,
  ◌==◌, ltb, if◌then◌else◌, length, take, drop,
}
use embeddenator_fs.Prelude.Run.{Run, ok, ◌>>=◌}
use embeddenator_fs.Types.{VersionedResult, ok as version_ok, err, wrap64}
use embeddenator_fs.Correction.{ChunkCorrection, compute_hash, new_correction}
use embeddenator_fs.ChunkStore.{VersionedChunk, new_chunk, get, batch_insert_new, batch_insert}
use embeddenator_fs.VersionedCorrections.{batch_insert_corrections, batch_update}
use embeddenator_fs.Manifest.{Manifest, get_file, add_file, update_file}
use embeddenator_fs.Manifest.Entry.{VersionedFileEntry, new_entry, new_compressed}
use embeddenator_fs.EmbrFs.{
  Nothing, Codec, EmbrFsError, file_not_found, file_exists, version_mismatch, io_error, FsResult,
  done, failed, from_mismatch, EmbrFs, default_chunk_size, encoding_format_reversible_vsa,
  encode_chunk, decode_chunk, next_fs_version,
}

-- `data.chunks(size)`, on fuel; every piece takes at least one byte, so that the length is enough.
unfoldable pub chunks_on : ℕ → ℕ → List ℕ → List (List ℕ)
chunks_on zero size bytes = []
chunks_on (suc fuel) size [] = []
chunks_on (suc fuel) size (b ∷ bytes) =
    take size (b ∷ bytes) ∷ chunks_on fuel size (drop size (b ∷ bytes))

abbrev pub chunk_data : List ℕ → List (List ℕ)
chunk_data bytes = chunks_on (length bytes) default_chunk_size bytes

-- The bytes below 32 that are not a line feed, a carriage return or a tab.
unfoldable pub non_printable : List ℕ → ℕ
non_printable [] = 0
non_printable (b ∷ bytes) =
    (if ltb b 32 && not (b == 10) && not (b == 13) && not (b == 9) then 1 else 0)
    + non_printable bytes

-- The quotient is below 0.05 when 20 times the count is below the size: both are at most 8192, so
-- that rounding does not matter.
unfoldable pub is_text_data : List ℕ → Bool
unfolding non_printable
is_text_data [] = true
is_text_data (b ∷ bytes) =
    let sample_size = min (length (b ∷ bytes)) 8192 in
    ltb (non_printable (take sample_size (b ∷ bytes)) * 20) sample_size

-- The match on the file that exists and the version that is expected.
unfoldable pub check_version :
    List ℕ → Option (VersionedFileEntry × ℕ) → Option ℕ → Option EmbrFsError
check_version path (some (e, v)) (some expected) =
    if e.version == expected then none else some (version_mismatch expected e.version)
check_version path (some (e, v)) none = some (file_exists path)
check_version path none (some expected) = some (file_not_found path)
check_version path none none = none

-- What the loop pushes on its three vectors.
pub record Encoded {ℓ} (V : Type ℓ) : Type ℓ where
  pub chunk_updates : List (ℕ × VersionedChunk V)
  pub corrections_to_add : List (ℕ × ChunkCorrection)
  pub chunk_ids : List ℕ

module _ {ℓ} {V E : Type ℓ} (codec : Codec V E) where
  -- `next_chunk_id.fetch_add(1)`
  abbrev pub allocate_chunk_id : EmbrFs V E → ℕ × EmbrFs V E
  allocate_chunk_id fs =
      (fs.next_chunk_id, record fs { next_chunk_id = wrap64 (fs.next_chunk_id + 1) })

  -- The body of the loop for one chunk, before the pushes.
  unfoldable pub encode_one :
      EmbrFs V E → List ℕ → List ℕ → Run ((ℕ × VersionedChunk V × ChunkCorrection) × EmbrFs V E)
  unfolding encode_chunk decode_chunk compute_hash
  encode_one fs path bytes =
      let (chunk_id, fs1) = allocate_chunk_id fs in
      let (chunk_vec, fs2) = encode_chunk codec fs1 bytes path in
      let decoded = decode_chunk codec fs2 chunk_vec path (length bytes) in
      do
        correction ← new_correction codec.sha256 chunk_id bytes decoded
        ok (
          (
            chunk_id,
            new_chunk chunk_vec (length bytes) (compute_hash codec.sha256 bytes),
            correction,
          ),
          fs2,
        )

  abbrev pub push_chunk : ℕ × VersionedChunk V × ChunkCorrection → Encoded V → Encoded V
  push_chunk (chunk_id, chunk, correction) rest = record {
    chunk_updates = (chunk_id, chunk) ∷ rest.chunk_updates;
    corrections_to_add = (chunk_id, correction) ∷ rest.corrections_to_add;
    chunk_ids = chunk_id ∷ rest.chunk_ids;
  }

  unfoldable pub encode_chunks : EmbrFs V E → List ℕ → List (List ℕ) → Run (Encoded V × EmbrFs V E)
  unfolding encode_one
  encode_chunks fs path [] =
      ok (record { chunk_updates = []; corrections_to_add = []; chunk_ids = [] }, fs)
  encode_chunks fs path (bytes ∷ chunks) = do
    (one, fs1) ← encode_one fs path bytes
    (rest, fs2) ← encode_chunks fs1 path chunks
    ok (push_chunk one rest, fs2)

  abbrev pub from_versions : {A : Type 0} → VersionedResult A → FsResult Nothing
  from_versions (version_ok v) = done tt
  from_versions (err e) = failed (from_mismatch e)

  -- The chunks go into the store, under the version that it had before the loop where one is expected.
  unfoldable pub store_chunks : EmbrFs V E → Encoded V → Bool → ℕ → FsResult Nothing × EmbrFs V E
  unfolding batch_insert_new batch_insert from_mismatch
  store_chunks fs encoded is_new store_version =
      let r =
        if is_new
        then batch_insert_new fs.chunk_store encoded.chunk_updates
        else batch_insert fs.chunk_store encoded.chunk_updates store_version in
      (from_versions r.0, record fs { chunk_store = r.1 })

  unfoldable pub store_corrections : EmbrFs V E → Encoded V → Bool → FsResult Nothing × EmbrFs V E
  unfolding batch_insert_corrections batch_update from_mismatch
  store_corrections fs encoded is_new =
      let r =
        if is_new
        then batch_insert_corrections fs.corrections encoded.corrections_to_add
        else batch_update fs.corrections encoded.corrections_to_add fs.corrections.version in
      (from_versions r.0, record fs { corrections = r.1 })

  unfoldable pub recorded : EmbrFs V E → ℕ → VersionedResult ℕ × Manifest → FsResult ℕ × EmbrFs V E
  unfolding from_mismatch
  recorded fs version (version_ok v, m) = (done version, record fs { manifest = m })
  recorded fs version (err e, m) = (failed (from_mismatch e), record fs { manifest = m })

  -- The entry is added, or takes the place of the one that exists; the answer is its version.
  unfoldable pub record_entry :
      EmbrFs V E
      → List ℕ
      → Option (VersionedFileEntry × ℕ)
      → VersionedFileEntry
      → Run (FsResult ℕ × EmbrFs V E)
  unfolding add_file update_file recorded
  record_entry fs path none entry = ok (recorded fs 0 (add_file fs.manifest entry))
  record_entry fs path (some (old, v)) entry = do
    r ← update_file fs.manifest path entry old.version
    ok (recorded fs (wrap64 (old.version + 1)) r)

  -- The loop of `bundle_chunks_to_root`.
  unfoldable pub bundle_into : EmbrFs V E → List ℕ → V → V
  unfolding get
  bundle_into fs [] root = root
  bundle_into fs (chunk_id ∷ ids) root = elim (get fs.chunk_store chunk_id) [
    | none ↦ bundle_into fs ids root
    | some (chunk, v) ↦ bundle_into fs ids (codec.bundle root chunk.vector)
  ]

  unfoldable pub bundle_chunks_to_root : EmbrFs V E → List ℕ → EmbrFs V E
  unfolding bundle_into
  bundle_chunks_to_root fs ids = record fs {
    root = bundle_into fs ids fs.root;
    root_version = wrap64 (fs.root_version + 1);
  }

  -- What follows on the entry, where it was recorded.
  unfoldable pub finish_commit : List ℕ → FsResult ℕ × EmbrFs V E → FsResult ℕ × EmbrFs V E
  unfolding bundle_chunks_to_root
  finish_commit ids (failed e, fs) = (failed e, fs)
  finish_commit ids (done version, fs) =
      (done version, next_fs_version (bundle_chunks_to_root fs ids))

  -- Steps 5 to 8 of a write, on the chunks that are encoded: each goes on where the one before it
  -- succeeded.
  unfoldable pub after_corrections :
      List ℕ
      → Option (VersionedFileEntry × ℕ)
      → List ℕ
      → VersionedFileEntry
      → FsResult Nothing × EmbrFs V E
      → Run (FsResult ℕ × EmbrFs V E)
  unfolding record_entry finish_commit
  after_corrections path existing ids entry (failed e, fs) = ok (failed e, fs)
  after_corrections path existing ids entry (done u, fs) = do
    r ← record_entry fs path existing entry
    ok (finish_commit ids r)

  unfoldable pub after_chunks :
      List ℕ
      → Option (VersionedFileEntry × ℕ)
      → Bool
      → Encoded V
      → VersionedFileEntry
      → FsResult Nothing × EmbrFs V E
      → Run (FsResult ℕ × EmbrFs V E)
  unfolding store_corrections after_corrections
  after_chunks path existing is_new encoded entry (failed e, fs) = ok (failed e, fs)
  after_chunks path existing is_new encoded entry (done u, fs) =
      after_corrections path existing encoded.chunk_ids entry (store_corrections fs encoded is_new)

  unfoldable pub commit :
      EmbrFs V E
      → List ℕ
      → Option (VersionedFileEntry × ℕ)
      → Bool
      → ℕ
      → Encoded V
      → VersionedFileEntry
      → Run (FsResult ℕ × EmbrFs V E)
  unfolding store_chunks after_chunks
  commit fs path existing is_new store_version encoded entry =
      after_chunks path existing is_new encoded entry (store_chunks fs encoded is_new store_version)

  abbrev pub is_none {κ} : {A : Type κ} → Option A → Bool
  is_none none = true
  is_none (some a) = false

  -- The format that a write sets.
  abbrev pub with_format : EmbrFs V E → VersionedFileEntry → VersionedFileEntry
  with_format fs entry =
      if fs.holographic_mode
      then record entry { encoding_format = some encoding_format_reversible_vsa }
      else entry

  -- A write of the bytes to store, with the entry that their chunks give.
  unfoldable pub write_stored :
      EmbrFs V E
      → List ℕ
      → List ℕ
      → Option ℕ
      → (List ℕ → VersionedFileEntry)
      → Run (FsResult ℕ × EmbrFs V E)
  unfolding check_version encode_chunks commit get_file
  write_stored fs path stored expected entry_of =
      let existing = get_file fs.manifest path in
      elim (check_version path existing expected) [
        | some e ↦ ok (failed e, fs)
        | none ↦ do
          (encoded, fs1) ← encode_chunks fs path (chunk_data stored)
          commit fs1 path existing (is_none expected) fs.chunk_store.global_version encoded
              (with_format fs (entry_of encoded.chunk_ids))
      ]

  unfoldable pub write_file :
      EmbrFs V E → List ℕ → List ℕ → Option ℕ → Run (FsResult ℕ × EmbrFs V E)
  unfolding write_stored is_text_data
  write_file fs path bytes expected =
      write_stored fs path bytes expected
        (λ ids. new_entry path (is_text_data bytes) (length bytes) ids)

  -- The bytes that `write_file_compressed` stores, and the number of their codec.
  unfoldable pub compressed : List ℕ → List ℕ → Option (List ℕ × ℕ)
  compressed path bytes =
      let c = codec.codec_for_path path in
      if c == 0
      then some (bytes, 0)
      else elim (codec.wrap_or_legacy c bytes) [ none ↦ none | some wrapped ↦ some (wrapped, c) ]

  -- The entry of a file whose bytes are stored as the codec left them.
  abbrev pub entry_with_codec : List ℕ → Bool → ℕ → ℕ → ℕ → List ℕ → VersionedFileEntry
  entry_with_codec path is_text stored_size size c ids =
      if c == 0
      then new_entry path is_text size ids
      else new_compressed path is_text stored_size size c ids

  unfoldable pub write_file_compressed :
      EmbrFs V E → List ℕ → List ℕ → Option ℕ → Run (FsResult ℕ × EmbrFs V E)
  unfolding write_stored compressed is_text_data
  write_file_compressed fs path bytes expected = elim (compressed path bytes) [
    | none ↦ ok (failed io_error, fs)
    | some (stored, c) ↦
        write_stored fs path stored expected
          (entry_with_codec path (is_text_data bytes) (length stored) (length bytes) c)
  ]
