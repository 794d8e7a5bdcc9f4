-- ===== src/Streaming/Ingester.antt =====
-- The streaming ingester: its builder, the readers, the work on a chunk, and the commit at the end.
pub mod Laws
use embeddenator_fs.Prelude.{
  ℕ, suc, ◌+◌, ◌*◌, min, max, Option, none, some, List, [], ◌∷◌, ◌++◌, map, Bool, true, false, ◌&&◌,
  ◌==◌, ltb, if◌then◌else◌, length,
}
use embeddenator_fs.Prelude.Run.{Run, ok, ◌>>=◌}
use embeddenator_fs.Types.{wrap64}
use embeddenator_fs.Correction.{ChunkCorrection, compute_hash, new_correction, storage_size}
use embeddenator_fs.ChunkStore.{VersionedChunk, new_chunk}
use embeddenator_fs.Manifest.{get_file}
use embeddenator_fs.Manifest.Entry.{VersionedFileEntry, new_entry, new_compressed}
use embeddenator_fs.EmbrFs.{
  Nothing, Codec, EmbrFsError, io_error, FsResult, done, failed, EmbrFs, default_chunk_size,
  encode_chunk, decode_chunk,
}
use embeddenator_fs.EmbrFs.Write.{
  Encoded, allocate_chunk_id, check_version, with_format, store_chunks, store_corrections,
  record_entry, bundle_chunks_to_root,
}
use embeddenator_fs.Streaming.Buffer.{add_slice, process_rest}

pub record PendingChunk {ℓ} (V : Type ℓ) : Type ℓ where
  pub chunk_id : ℕ
  pub data_of : List ℕ
  pub vector : V
  pub correction : ChunkCorrection

-- What the work on a chunk changes.
pub record Made {ℓ} (V E : Type ℓ) : Type ℓ where
  pub fs : EmbrFs V E
  pub pending_chunks : List (PendingChunk V)
  pub chunk_ids : List ℕ
  pub correction_bytes : ℕ

pub record StreamingIngester {ℓ} (V E : Type ℓ) : Type ℓ where
  pub path : List ℕ
  pub chunk_size : ℕ
  pub expected_version : Option ℕ
  pub compression : Option ℕ
  pub buffer : List ℕ
  pub total_bytes : ℕ
  pub made : Made V E

pub record StreamingIngesterBuilder {ℓ} (V E : Type ℓ) : Type ℓ where
  pub fs : EmbrFs V E
  pub chunk_size : ℕ
  pub path : Option (List ℕ)
  pub expected_version : Option ℕ
  pub compression : Option ℕ

pub record StreamingResult : Type 0 where
  pub path : List ℕ
  pub total_bytes : ℕ
  pub chunk_count : ℕ
  pub version : ℕ
  pub correction_savings : ℕ

pub record StreamingProgress : Type 0 where
  pub bytes_processed : ℕ
  pub chunks_created : ℕ
  pub buffer_usage : ℕ
  pub correction_overhead : ℕ

-- A size that the heuristic takes for a text's.
unfoldable pub is_likely_text : ℕ → Bool
is_likely_text size = ltb size (1024 * 1024)

module _ {ℓ} {V E : Type ℓ} where
  abbrev pub new_builder : EmbrFs V E → StreamingIngesterBuilder V E
  new_builder fs = record {
    fs = fs;
    chunk_size = default_chunk_size;
    path = none;
    expected_version = none;
    compression = none;
  }

  -- `size.clamp(512, 1024 * 1024)`
  abbrev pub with_chunk_size : StreamingIngesterBuilder V E → ℕ → StreamingIngesterBuilder V E
  with_chunk_size b size = record b { chunk_size = min (max size 512) (1024 * 1024) }

  abbrev pub with_path : StreamingIngesterBuilder V E → List ℕ → StreamingIngesterBuilder V E
  with_path b path = record b { path = some path }

  abbrev pub with_expected_version : StreamingIngesterBuilder V E → ℕ → StreamingIngesterBuilder V E
  with_expected_version b version = record b { expected_version = some version }

  abbrev pub with_compression : StreamingIngesterBuilder V E → ℕ → StreamingIngesterBuilder V E
  with_compression b codec = record b { compression = some codec }

  -- An ingester, or no result where the path is missing.
  unfoldable pub build : StreamingIngesterBuilder V E → Option (StreamingIngester V E)
  build b = elim b.path [
    | none ↦ none
    | some path ↦ some (record {
      path = path;
      chunk_size = b.chunk_size;
      expected_version = b.expected_version;
      compression = b.compression;
      buffer = [];
      total_bytes = 0;
      made = record { fs = b.fs; pending_chunks = []; chunk_ids = []; correction_bytes = 0 };
    })
  ]

  unfoldable pub progress : StreamingIngester V E → StreamingProgress
  progress ing = record {
    bytes_processed = ing.total_bytes;
    chunks_created = length ing.made.chunk_ids;
    buffer_usage = length ing.buffer;
    correction_overhead = ing.made.correction_bytes;
  }

module _ {ℓ} {V E : Type ℓ} (codec : Codec V E) where
  -- The bytes of a chunk as they are encoded.
  unfoldable pub compress : Option ℕ → List ℕ → Option (List ℕ)
  compress none bytes = some bytes
  compress (some c) bytes = if c == 0 then some bytes else codec.wrap_or_legacy c bytes

  -- The pushes on the vectors, and the sum of the sizes of corrections.
  abbrev pub push_pending : Made V E → EmbrFs V E → ℕ → List ℕ → V → ChunkCorrection → Made V E
  push_pending made fs id bytes vector correction = record {
    fs = fs;
    pending_chunks =
        made.pending_chunks
        ++ (record { chunk_id = id; data_of = bytes; vector = vector; correction = correction }
            ∷ []);
    chunk_ids = made.chunk_ids ++ (id ∷ []);
    correction_bytes = wrap64 (made.correction_bytes + storage_size correction);
  }

  -- The encoding of the bytes of a chunk under its id.
  unfoldable pub encode_pending :
      List ℕ → Made V E → ℕ → EmbrFs V E → List ℕ → Run (FsResult Nothing × Made V E)
  unfolding encode_chunk decode_chunk storage_size
  encode_pending path made id fs bytes =
      let (vector, fs1) = encode_chunk codec fs bytes path in
      let decoded = decode_chunk codec fs1 vector path (length bytes) in
      do
        correction ← new_correction codec.sha256 id bytes decoded
        ok (done tt, push_pending made fs1 id bytes vector correction)

  unfoldable pub process_chunk :
      List ℕ → Option ℕ → Made V E → List ℕ → Run (FsResult Nothing × Made V E)
  unfolding compress encode_pending
  process_chunk path compression made bytes =
      let (id, fs1) = allocate_chunk_id codec made.fs in
      elim (compress compression bytes) [
        | none ↦ ok (failed io_error, record made { fs = fs1 })
        | some encoded ↦ encode_pending path made id fs1 encoded
      ]

  unfoldable pub ingest_bytes :
      StreamingIngester V E → List ℕ → Run (FsResult Nothing × StreamingIngester V E)
  unfolding add_slice process_chunk
  ingest_bytes ing bytes = do
    (answer, rest, made) ←
        add_slice (process_chunk ing.path ing.compression) ing.chunk_size ing.buffer bytes ing.made
    ok (
      answer,
      record ing {
        total_bytes = wrap64 (ing.total_bytes + length bytes);
        buffer = rest;
        made = made;
      },
    )

  unfoldable pub after_slice :
      (StreamingIngester V E → Run (FsResult Nothing × StreamingIngester V E))
      → FsResult Nothing × StreamingIngester V E
      → Run (FsResult Nothing × StreamingIngester V E)
  after_slice next (done u, ing) = next ing
  after_slice next (failed e, ing) = ok (failed e, ing)

  -- `ingest_reader` and `ingest_buffered` on what the reads give: `none` is an error, and a read
  -- without bytes is the end.
  unfoldable pub ingest_reader :
      StreamingIngester V E
      → List (Option (List ℕ))
      → Run (FsResult Nothing × StreamingIngester V E)
  unfolding ingest_bytes after_slice
  ingest_reader ing [] = ok (done tt, ing)
  ingest_reader ing (none ∷ reads) = ok (failed io_error, ing)
  ingest_reader ing (some [] ∷ reads) = ok (done tt, ing)
  ingest_reader ing (some (b ∷ bytes) ∷ reads) = do
    r ← ingest_bytes ing (b ∷ bytes)
    after_slice (λ ing1. ingest_reader ing1 reads) r

  -- What `finalize` does first.
  unfoldable pub process_remaining :
      StreamingIngester V E → Run (FsResult Nothing × StreamingIngester V E)
  unfolding process_rest process_chunk
  process_remaining ing = do
    (answer, made) ←
        process_rest (process_chunk ing.path ing.compression) ing.chunk_size ing.buffer ing.made
    ok (answer, record ing { buffer = []; made = made })

  -- The chunks and the corrections to insert.
  unfoldable pub encoded_of : Made V E → Encoded V
  unfolding compute_hash
  encoded_of made = record {
    chunk_updates =
        map
          (λ pc. (
            pc.chunk_id,
            new_chunk pc.vector (length pc.data_of) (compute_hash codec.sha256 pc.data_of),
          ))
          made.pending_chunks;
    corrections_to_add = map (λ pc. (pc.chunk_id, pc.correction)) made.pending_chunks;
    chunk_ids = made.chunk_ids;
  }

  unfoldable pub entry_for : StreamingIngester V E → VersionedFileEntry
  unfolding is_likely_text
  entry_for ing =
      let is_text = ltb 0 ing.total_bytes && is_likely_text ing.total_bytes in
      elim ing.compression [
        | none ↦ new_entry ing.path is_text ing.total_bytes ing.made.chunk_ids
        | some c ↦
            new_compressed ing.path is_text ing.total_bytes ing.total_bytes c ing.made.chunk_ids
      ]

  unfoldable pub result_of : StreamingIngester V E → ℕ → StreamingResult
  result_of ing version = record {
    path = ing.path;
    total_bytes = ing.total_bytes;
    chunk_count = length ing.made.chunk_ids;
    version = version;
    correction_savings = ing.made.correction_bytes;
  }

  unfoldable pub after_record :
      StreamingIngester V E → FsResult ℕ × EmbrFs V E → FsResult StreamingResult × EmbrFs V E
  unfolding bundle_chunks_to_root result_of
  after_record ing (failed e, fs) = (failed e, fs)
  after_record ing (done version, fs) =
      (done (result_of ing version), bundle_chunks_to_root codec fs ing.made.chunk_ids)

  unfoldable pub after_corrections_stored :
      StreamingIngester V E
      → Option (VersionedFileEntry × ℕ)
      → FsResult Nothing × EmbrFs V E
      → Run (FsResult StreamingResult × EmbrFs V E)
  unfolding record_entry entry_for after_record
  after_corrections_stored ing existing (failed e, fs) = ok (failed e, fs)
  after_corrections_stored ing existing (done u, fs) = do
    r ← record_entry codec fs ing.path existing (with_format codec fs (entry_for ing))
    ok (after_record ing r)

  unfoldable pub after_chunks_stored :
      StreamingIngester V E
      → Option (VersionedFileEntry × ℕ)
      → FsResult Nothing × EmbrFs V E
      → Run (FsResult StreamingResult × EmbrFs V E)
  unfolding store_corrections encoded_of after_corrections_stored
  after_chunks_stored ing existing (failed e, fs) = ok (failed e, fs)
  after_chunks_stored ing existing (done u, fs) =
      after_corrections_stored ing existing (store_corrections codec fs (encoded_of ing.made) true)

  -- The commit of an ingester whose chunks are all processed.
  unfoldable pub commit_file :
      FsResult Nothing × StreamingIngester V E → Run (FsResult StreamingResult × EmbrFs V E)
  unfolding check_version store_chunks encoded_of after_chunks_stored get_file
  commit_file (failed e, ing) = ok (failed e, ing.made.fs)
  commit_file (done u, ing) =
      let fs = ing.made.fs in
      let existing = get_file fs.manifest ing.path in
      elim (check_version ing.path existing ing.expected_version) [
        | some e ↦ ok (failed e, fs)
        | none ↦
            after_chunks_stored ing existing (store_chunks codec fs (encoded_of ing.made) true 0)
      ]

  unfoldable pub finalize : StreamingIngester V E → Run (FsResult StreamingResult × EmbrFs V E)
  unfolding process_remaining commit_file
  finalize ing = do r ← process_remaining ing; commit_file r
