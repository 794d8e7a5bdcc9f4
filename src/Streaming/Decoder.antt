-- ===== src/Streaming/Decoder.antt =====
-- The streaming decoder. It keeps the fields on compression only for later use; they are left out.
use embeddenator_fs.Prelude.{
  ℕ, zero, suc, ◌+◌, ◌-◌, ◌/◌, ◌%◌, min, Option, none, some, List, [], Bool, true, false, ◌==◌, ltb,
  leb, if◌then◌else◌, length, get_elem?, take, drop,
}
use embeddenator_fs.Types.{wrap64}
use embeddenator_fs.ChunkStore.{get}
use embeddenator_fs.Manifest.{get_file}
use embeddenator_fs.Manifest.Entry.{VersionedFileEntry}
use embeddenator_fs.EmbrFs.{
  Nothing, Codec, file_not_found, chunk_not_found, FsResult, done, failed, EmbrFs,
  default_chunk_size, decode_chunk_with_format, corrected, prepend,
}

pub record StreamingDecoder {ℓ} (V E : Type ℓ) : Type ℓ where
  pub fs : EmbrFs V E
  pub path : List ℕ
  pub chunks : List ℕ
  pub file_size : ℕ
  pub version : ℕ
  pub current_chunk_idx : ℕ
  pub current_chunk_data : List ℕ
  pub position_in_chunk : ℕ
  pub total_bytes_read : ℕ
  pub encoding_format : Option ℕ

pub record StreamingDecodeProgress : Type 0 where
  pub bytes_read : ℕ
  pub total_bytes : ℕ
  pub chunks_decoded : ℕ
  pub total_chunks : ℕ

module _ {ℓ} {V E : Type ℓ} where
  abbrev pub decoder_of : EmbrFs V E → List ℕ → VersionedFileEntry → StreamingDecoder V E
  decoder_of fs path e = record {
    fs = fs;
    path = path;
    chunks = e.chunks;
    file_size = e.size;
    version = e.version;
    current_chunk_idx = 0;
    current_chunk_data = [];
    position_in_chunk = 0;
    total_bytes_read = 0;
    encoding_format = e.encoding_format;
  }

  unfoldable pub new_decoder : EmbrFs V E → List ℕ → FsResult (StreamingDecoder V E)
  unfolding get_file
  new_decoder fs path = elim (get_file fs.manifest path) [
    | none ↦ failed (file_not_found path)
    | some (e, v) ↦ if e.deleted then failed (file_not_found path) else done (decoder_of fs path e)
  ]

  unfoldable pub is_exhausted : StreamingDecoder V E → Bool
  is_exhausted d = leb d.file_size d.total_bytes_read

  unfoldable pub decode_progress : StreamingDecoder V E → StreamingDecodeProgress
  decode_progress d = record {
    bytes_read = d.total_bytes_read;
    total_bytes = d.file_size;
    chunks_decoded = d.current_chunk_idx;
    total_chunks = length d.chunks;
  }

module _ {ℓ} {V E : Type ℓ} (codec : Codec V E) where
  -- The bytes of a chunk: its decoding at its own size, corrected.
  unfoldable pub chunk_bytes : EmbrFs V E → List ℕ → Option ℕ → ℕ → FsResult (List ℕ)
  unfolding get decode_chunk_with_format corrected
  chunk_bytes fs path format id = elim (get fs.chunk_store id) [
    | none ↦ failed (chunk_not_found id)
    | some (chunk, v) ↦ done (
        corrected fs id
          (decode_chunk_with_format codec fs chunk.vector path chunk.original_size format))
  ]

  abbrev advance :
      StreamingDecoder V E → FsResult (List ℕ) → FsResult (Option (List ℕ)) × StreamingDecoder V E
  advance d (failed e) = (failed e, d)
  advance d (done bytes) =
      (done (some bytes), record d { current_chunk_idx = d.current_chunk_idx + 1 })

  unfoldable pub decode_next_chunk :
      StreamingDecoder V E → FsResult (Option (List ℕ)) × StreamingDecoder V E
  unfolding chunk_bytes
  decode_next_chunk d = elim (get_elem? d.chunks d.current_chunk_idx) [
    | none ↦ (done none, d)
    | some id ↦ advance d (chunk_bytes d.fs d.path d.encoding_format id)
  ]

  -- What `seek_to` does with the chunk that it loads ahead: it goes back before that chunk.
  unfoldable pub preloaded :
      FsResult (Option (List ℕ)) × StreamingDecoder V E → FsResult Nothing × StreamingDecoder V E
  preloaded (failed e, d) = (failed e, d)
  preloaded (done none, d) = (done tt, d)
  preloaded (done (some bytes), d) = (
    done tt,
    record d { current_chunk_data = bytes; current_chunk_idx = d.current_chunk_idx - 1 },
  )

  -- The decoder set to a position of the file.
  abbrev pub set_position : StreamingDecoder V E → ℕ → StreamingDecoder V E
  set_position d position = record d {
    current_chunk_idx = position / default_chunk_size;
    current_chunk_data = [];
    position_in_chunk = position % default_chunk_size;
    total_bytes_read = position;
  }

  unfoldable pub seek_to : StreamingDecoder V E → ℕ → FsResult Nothing × StreamingDecoder V E
  unfolding decode_next_chunk preloaded
  seek_to d position =
      if leb d.file_size position
      then (
        done tt,
        record d {
          current_chunk_idx = length d.chunks;
          current_chunk_data = [];
          position_in_chunk = 0;
          total_bytes_read = d.file_size;
        },
      )
      else if ltb 0 (position % default_chunk_size)
      then preloaded (decode_next_chunk (set_position d position))
      else (done tt, set_position d position)

  -- Whether there are bytes to copy: the next chunk is loaded where the current one is at its end.
  unfoldable pub loaded :
      FsResult (Option (List ℕ)) × StreamingDecoder V E → FsResult Bool × StreamingDecoder V E
  loaded (failed e, d) = (failed e, d)
  loaded (done none, d) = (done false, d)
  loaded (done (some bytes), d) =
      (done true, record d { current_chunk_data = bytes; position_in_chunk = 0 })

  unfoldable pub load : StreamingDecoder V E → FsResult Bool × StreamingDecoder V E
  unfolding decode_next_chunk loaded
  load d =
      if leb (length d.current_chunk_data) d.position_in_chunk
      then loaded (decode_next_chunk d)
      else (done true, d)

  -- How many bytes a round copies, and the decoder behind them.
  abbrev pub copy_len : StreamingDecoder V E → ℕ → ℕ
  copy_len d needed = min (length d.current_chunk_data - d.position_in_chunk) needed

  abbrev pub behind : StreamingDecoder V E → ℕ → StreamingDecoder V E
  behind d n = record d {
    position_in_chunk = d.position_in_chunk + n;
    total_bytes_read = wrap64 (d.total_bytes_read + n);
  }

  -- The copy of a round, and the rounds after it.
  unfoldable pub copy :
      (ℕ → StreamingDecoder V E → FsResult (List ℕ) × StreamingDecoder V E)
      → ℕ
      → FsResult Bool × StreamingDecoder V E
      → FsResult (List ℕ) × StreamingDecoder V E
  unfolding prepend
  copy next needed (failed e, d) = (failed e, d)
  copy next needed (done false, d) = (done [], d)
  copy next needed (done true, d) =
      let n = copy_len d needed in
      let r = next (needed - n) (behind d n) in
      (prepend (take n (drop d.position_in_chunk d.current_chunk_data)) r.0, r.1)

  -- `while result.len() < to_read`, on fuel; `needed` is what is left to read. Every round loads a
  -- chunk but the first, so that two rounds more than there are chunks are enough.
  unfoldable pub read_loop : ℕ → ℕ → StreamingDecoder V E → FsResult (List ℕ) × StreamingDecoder V E
  unfolding load copy
  read_loop zero needed d = (done [], d)
  read_loop (suc fuel) needed d =
      if needed == 0 then (done [], d) else copy (read_loop fuel) needed (load d)

  -- The cut at the end of the file; `total_bytes_read` counts the result.
  abbrev pub cut :
      FsResult (List ℕ) × StreamingDecoder V E → FsResult (List ℕ) × StreamingDecoder V E
  cut (failed e, d) = (failed e, d)
  cut (done bytes, d) = (done (take (d.file_size - (d.total_bytes_read - length bytes)) bytes), d)

  unfoldable pub read_n_bytes : StreamingDecoder V E → ℕ → FsResult (List ℕ) × StreamingDecoder V E
  unfolding read_loop
  read_n_bytes d n =
      cut (read_loop (length d.chunks + 2) (min n (d.file_size - d.total_bytes_read)) d)

  -- `Iterator::next`
  unfoldable pub next_item :
      FsResult (Option (List ℕ)) × StreamingDecoder V E
      → Option (FsResult (List ℕ)) × StreamingDecoder V E
  next_item (failed e, d) = (some (failed e), d)
  next_item (done none, d) = (none, d)
  next_item (done (some bytes), d) =
      let item = take (d.file_size - d.total_bytes_read) bytes in
      (
        some (done item),
        record d {
          total_bytes_read = wrap64 (d.total_bytes_read + length item);
          current_chunk_data = [];
          position_in_chunk = 0;
        },
      )

  unfoldable pub next_chunk :
      StreamingDecoder V E → Option (FsResult (List ℕ)) × StreamingDecoder V E
  unfolding is_exhausted decode_next_chunk next_item
  next_chunk d = if is_exhausted d then (none, d) else next_item (decode_next_chunk d)

  -- `Read::read` into a buffer of `n` bytes.
  unfoldable pub read_into : StreamingDecoder V E → ℕ → FsResult (List ℕ) × StreamingDecoder V E
  unfolding is_exhausted read_n_bytes
  read_into d n = if is_exhausted d then (done [], d) else read_n_bytes d n

  abbrev sought : FsResult Nothing × StreamingDecoder V E → FsResult (StreamingDecoder V E)
  sought (failed e, d) = failed e
  sought (done u, d) = done d

  -- The builder's `build`, which makes nothing of the limit `max_bytes`.
  unfoldable pub build_decoder :
      EmbrFs V E → List ℕ → Option ℕ → Option ℕ → FsResult (StreamingDecoder V E)
  unfolding new_decoder seek_to
  build_decoder fs path start_offset max_bytes = elim (new_decoder fs path) [
    | failed e ↦ failed e
    | done d ↦ elim start_offset [ none ↦ done d | some offset ↦ sought (seek_to d offset) ]
  ]

  -- `stream_decode` and `stream_decode_range` of the file system.
  abbrev pub stream_decode : EmbrFs V E → List ℕ → FsResult (StreamingDecoder V E)
  stream_decode fs path = new_decoder fs path

  unfoldable pub stream_decode_range :
      EmbrFs V E → List ℕ → ℕ → Option ℕ → FsResult (StreamingDecoder V E)
  unfolding build_decoder
  stream_decode_range fs path offset max_bytes =
      build_decoder fs path (if ltb 0 offset then some offset else none) max_bytes
