-- ===== src/EmbrFs/Range.antt =====
-- `read_range`: the read of a part of a file, with the index of its chunks' offsets or without.
use embeddenator_fs.Prelude.{
  ℕ, ◌+◌, ◌-◌, min, none, some, List, [], ◌∷◌, ◌==◌, ◌||◌, ◌&&◌, ltb, leb, if◌then◌else◌, length,
  take, drop,
}
use embeddenator_fs.Prelude.Run.{Run, ok, panic}
use embeddenator_fs.Types.{ChunkRange, wrap64}
use embeddenator_fs.ChunkStore.{VersionedChunk, get}
use embeddenator_fs.Manifest.{get_file}
use embeddenator_fs.Manifest.Entry.{VersionedFileEntry}
use embeddenator_fs.Manifest.Entry.Offsets.{chunks_for_range}
use embeddenator_fs.EmbrFs.{
  Codec, file_not_found, chunk_not_found, FsResult, done, failed, EmbrFs, corrected, prepend,
}

-- A part of a chunk before a part that may have failed or panicked.
unfoldable pub before : List ℕ → Run (FsResult (List ℕ)) → Run (FsResult (List ℕ))
unfolding prepend
before bytes panic = panic
before bytes (ok rest) = ok (prepend bytes rest)

-- `bytes[start..end]`, which panics for bounds that are out of order or out of the slice.
unfoldable pub part : List ℕ → ℕ → ℕ → (List ℕ → Run (FsResult (List ℕ))) → Run (FsResult (List ℕ))
part bytes start end then_with =
    if leb start end && leb end (length bytes)
    then then_with (take (end - start) (drop start bytes))
    else panic

module _ {ℓ} {V E : Type ℓ} (codec : Codec V E) where
  -- The bytes of a chunk: it is decoded with the encoder of files that are not holographic, whatever
  -- the format of the file.
  unfoldable pub range_chunk : EmbrFs V E → List ℕ → ℕ → VersionedChunk V → List ℕ
  unfolding corrected
  range_chunk fs path chunk_id chunk =
      corrected fs chunk_id (codec.decode_data chunk.vector path chunk.original_size)

  -- The loop of `read_range_with_index`.
  unfoldable pub read_chunk_ranges : EmbrFs V E → List ℕ → List ChunkRange → Run (FsResult (List ℕ))
  unfolding range_chunk before part get
  read_chunk_ranges fs path [] = ok (done [])
  read_chunk_ranges fs path (range ∷ ranges) =
      let rest = read_chunk_ranges fs path ranges in
      elim (get fs.chunk_store range.chunk_id) [
        | none ↦ ok (failed (chunk_not_found range.chunk_id))
        | some (chunk, v) ↦
            let bytes = range_chunk fs path range.chunk_id chunk in
            let end = min (wrap64 (range.start_within_chunk + range.length)) (length bytes) in
            if range.start_within_chunk == 0 && range.length == length bytes
            then before bytes rest
            else part bytes range.start_within_chunk end (λ piece. before piece rest)
      ]

  -- The loop of `read_range_sequential`, which begins at `current_offset` and has `collected` bytes.
  unfoldable pub read_sequential :
      EmbrFs V E → List ℕ → List ℕ → ℕ → ℕ → ℕ → ℕ → Run (FsResult (List ℕ))
  unfolding range_chunk before get
  read_sequential fs path [] current_offset collected offset len = ok (done [])
  read_sequential fs path (chunk_id ∷ ids) current_offset collected offset len =
      elim (get fs.chunk_store chunk_id) [
        | none ↦ ok (failed (chunk_not_found chunk_id))
        | some (chunk, v) ↦
            let chunk_end = wrap64 (current_offset + chunk.original_size) in
            let bytes = range_chunk fs path chunk_id chunk in
            let end_offset = wrap64 (offset + len) in
            let start_in_chunk = offset - current_offset in
            let end_in_chunk = min (end_offset - current_offset) (length bytes) in
            let piece =
              if ltb start_in_chunk end_in_chunk
              then take (end_in_chunk - start_in_chunk) (drop start_in_chunk bytes)
              else [] in
            let total = collected + length piece in
            let skipped = read_sequential fs path ids chunk_end collected offset len in
            let rest = read_sequential fs path ids chunk_end total offset len in
            if leb chunk_end offset
            then skipped
            else if leb end_offset current_offset
            then ok (done [])
            else if leb len total
            then before piece (ok (done []))
            else before piece rest
      ]

  -- The answer is cut to the bytes that were asked for.
  unfoldable pub answer : ℕ → ℕ → Run (FsResult (List ℕ)) → Run (FsResult (List ℕ × ℕ))
  answer len version panic = panic
  answer len version (ok (failed e)) = ok (failed e)
  answer len version (ok (done bytes)) = ok (done (take len bytes, version))

  unfoldable pub read_part : EmbrFs V E → VersionedFileEntry → ℕ → ℕ → Run (FsResult (List ℕ))
  unfolding read_chunk_ranges read_sequential chunks_for_range
  read_part fs e offset len = elim e.chunk_offsets [
    | some offsets ↦ read_chunk_ranges fs e.path (chunks_for_range e offset len)
    | none ↦ read_sequential fs e.path e.chunks 0 0 offset len
  ]

  unfoldable pub read_range : EmbrFs V E → List ℕ → ℕ → ℕ → Run (FsResult (List ℕ × ℕ))
  unfolding read_part answer get_file
  read_range fs path offset len = elim (get_file fs.manifest path) [
    | none ↦ ok (failed (file_not_found path))
    | some (e, v) ↦
        if e.deleted
        then ok (failed (file_not_found path))
        else if leb e.size offset || len == 0
        then ok (done ([], e.version))
        else answer (min len (e.size - offset)) e.version
            (read_part fs e offset (min len (e.size - offset)))
  ]
