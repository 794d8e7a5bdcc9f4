-- ===== src/EmbrFs/Patch/Apply.antt =====
-- The application of each type of delta, in the order of the code.
use embeddenator_fs.Prelude.{
  ℕ, ◌+◌, ◌-◌, ◌*◌, ◌/◌, ◌%◌, min, Option, none, some, List, [], ◌∷◌, ◌++◌, not, ◌&&◌, ◌==◌, ltb,
  leb, if◌then◌else◌, length, get_elem?, take, drop,
}
use embeddenator_fs.Prelude.Bytes.{bytes_eq}
use embeddenator_fs.Prelude.Run.{Run, ok, panic, ◌>>=◌}
use embeddenator_fs.Types.{wrap64}
use embeddenator_fs.Delta.{
  Change, DeltaType, byte_replace, multi_byte_replace, range_replace, insert, delete, append,
  truncate, analyze_delta,
}
use embeddenator_fs.Manifest.{get_file}
use embeddenator_fs.Manifest.Entry.{VersionedFileEntry}
use embeddenator_fs.Manifest.Entry.Offsets.{build_offset_index}
use embeddenator_fs.EmbrFs.{
  Nothing, Codec, EmbrFsError, file_not_found, version_mismatch, invalid_operation, FsResult, done,
  failed, EmbrFs, default_chunk_size, read_file,
}
use embeddenator_fs.EmbrFs.Write.{allocate_chunk_id, chunks_on, write_file}
use embeddenator_fs.EmbrFs.Patch.{
  is_empty, put_byte, put_bytes, bytes_by_chunk, range_changes, chunk_sizes, last_of, and_then,
  store_bytes, change_chunk, commit_entry,
}

module _ {ℓ} {V E : Type ℓ} (codec : Codec V E) where
  unfoldable pub apply_byte_replace :
      EmbrFs V E → List ℕ → VersionedFileEntry → ℕ → ℕ → Run (FsResult ℕ × EmbrFs V E)
  unfolding change_chunk put_byte commit_entry
  apply_byte_replace fs path e offset new_value =
      elim (get_elem? e.chunks (offset / default_chunk_size)) [
        | none ↦ ok (failed invalid_operation, fs)
        | some chunk_id ↦ do
          r ←
              change_chunk codec fs path chunk_id
                (λ bytes. put_byte bytes (offset % default_chunk_size) new_value)
          and_then codec (λ u fs1. commit_entry codec path e e fs1) r
      ]

  -- The loop over the chunks with changes; those behind the end are passed over.
  unfoldable pub change_chunks :
      List ℕ → List ℕ → List (ℕ × List (ℕ × ℕ)) → EmbrFs V E → Run (FsResult Nothing × EmbrFs V E)
  unfolding change_chunk put_bytes
  change_chunks path ids [] fs = ok (done tt, fs)
  change_chunks path ids ((chunk_idx, changes) ∷ groups) fs = elim (get_elem? ids chunk_idx) [
    | none ↦ change_chunks path ids groups fs
    | some chunk_id ↦ do
      r ← change_chunk codec fs path chunk_id (put_bytes changes)
      and_then codec (λ u fs1. change_chunks path ids groups fs1) r
  ]

  unfoldable pub apply_multi_byte_replace :
      EmbrFs V E → List ℕ → VersionedFileEntry → List Change → Run (FsResult ℕ × EmbrFs V E)
  unfolding change_chunks bytes_by_chunk commit_entry
  apply_multi_byte_replace fs path e changes = do
    r ← change_chunks path e.chunks (bytes_by_chunk changes []) fs
    and_then codec (λ u fs1. commit_entry codec path e e fs1) r

  unfoldable pub apply_same_length_replace :
      EmbrFs V E → List ℕ → VersionedFileEntry → ℕ → List ℕ → Run (FsResult ℕ × EmbrFs V E)
  unfolding apply_multi_byte_replace range_changes
  apply_same_length_replace fs path e offset new_data =
      apply_multi_byte_replace fs path e (range_changes offset new_data)

  -- The chunks behind the end of a file, each under a new id.
  unfoldable pub append_chunks :
      List ℕ → List (List ℕ) → EmbrFs V E → Run (FsResult (List ℕ) × EmbrFs V E)
  unfolding store_bytes
  append_chunks path [] fs = ok (done [], fs)
  append_chunks path (bytes ∷ chunks) fs =
      let (chunk_id, fs1) = allocate_chunk_id codec fs in
      do
        r ← store_bytes codec fs1 path chunk_id bytes
        and_then codec
            (λ u fs2. do
              s ← append_chunks path chunks fs2
              and_then codec (λ ids fs3. ok (done (chunk_id ∷ ids), fs3)) s)
            r

  -- The entry with its new chunks and size, whose index of offsets is built again.
  unfoldable pub resize_entry :
      List ℕ → VersionedFileEntry → List ℕ → ℕ → EmbrFs V E → Run (FsResult ℕ × EmbrFs V E)
  unfolding build_offset_index chunk_sizes commit_entry
  resize_entry path e ids new_size fs = do
    entry ←
        build_offset_index (record e { chunks = ids; size = new_size })
          (chunk_sizes 0 (length ids) new_size)
    commit_entry codec path e entry fs

  -- The bytes in the last chunk of a file.
  unfoldable pub bytes_in_last : ℕ → ℕ
  bytes_in_last size = if size == 0 then 0 else (size - 1) % default_chunk_size + 1

  -- What is appended to the last chunk, where it has room; the answer is how many bytes that are.
  unfoldable pub fill_last :
      EmbrFs V E → List ℕ → VersionedFileEntry → List ℕ → Run (FsResult ℕ × EmbrFs V E)
  unfolding bytes_in_last last_of change_chunk
  fill_last fs path e bytes =
      let used = bytes_in_last e.size in
      let fill = min (default_chunk_size - used) (length bytes) in
      elim (last_of e.chunks) [
        | none ↦ ok (done 0, fs)
        | some chunk_id ↦
            if ltb 0 (default_chunk_size - used) && ltb 0 used
            then (do
              r ← change_chunk codec fs path chunk_id (λ current. current ++ take fill bytes)
              and_then codec (λ u fs1. ok (done fill, fs1)) r)
            else ok (done 0, fs)
      ]

  unfoldable pub apply_append :
      EmbrFs V E → List ℕ → VersionedFileEntry → List ℕ → Run (FsResult ℕ × EmbrFs V E)
  unfolding fill_last append_chunks resize_entry chunks_on
  apply_append fs path e [] = ok (done e.version, fs)
  apply_append fs path e (b ∷ bytes) = do
    r ← fill_last fs path e (b ∷ bytes)
    and_then codec
        (λ fill fs1.
          let rest = drop fill (b ∷ bytes) in
          (do
            s ← append_chunks path (chunks_on (length rest) default_chunk_size rest) fs1
            and_then codec
                (λ ids fs2.
                  resize_entry path e (e.chunks ++ ids) (wrap64 (e.size + length (b ∷ bytes))) fs2)
                s))
        r

  -- The last chunk that a truncation keeps is cut, where it is not kept whole.
  unfoldable pub cut_last :
      EmbrFs V E → List ℕ → List ℕ → ℕ → ℕ → Run (FsResult Nothing × EmbrFs V E)
  unfolding last_of change_chunk
  cut_last fs path ids new_length new_count =
      let last_bytes = new_length - (new_count - 1) * default_chunk_size in
      elim (last_of ids) [
        | none ↦ ok (done tt, fs)
        | some chunk_id ↦
            if ltb 0 new_length && ltb last_bytes default_chunk_size
            then change_chunk codec fs path chunk_id (take last_bytes)
            else ok (done tt, fs)
      ]

  unfoldable pub apply_truncate :
      EmbrFs V E → List ℕ → VersionedFileEntry → ℕ → Run (FsResult ℕ × EmbrFs V E)
  unfolding cut_last resize_entry
  apply_truncate fs path e new_length =
      let new_count = (new_length + 4095) / default_chunk_size in
      let ids = take new_count e.chunks in
      if leb e.size new_length then ok (done e.version, fs) else (do
        r ← cut_last fs path ids new_length new_count
        and_then codec (λ u fs1. resize_entry path e ids new_length fs1) r)

  -- The content with the range replaced; a range that begins behind the end is a panic.
  unfoldable pub replace_range : List ℕ → ℕ → List ℕ → List ℕ → Run (FsResult (List ℕ))
  unfolding bytes_eq
  replace_range content offset old_data new_data =
      let end = offset + length old_data in
      if leb end (length content)
        && not (bytes_eq (take (length old_data) (drop offset content)) old_data)
      then ok (failed (version_mismatch 0 1))
      else if ltb (length content) offset
      then panic
      else ok (done (take offset content ++ (new_data ++ drop end content)))

  -- The write of the content that was replaced.
  unfoldable pub write_back :
      EmbrFs V E → List ℕ → VersionedFileEntry → FsResult (List ℕ) → Run (FsResult ℕ × EmbrFs V E)
  unfolding write_file
  write_back fs path e (failed error) = ok (failed error, fs)
  write_back fs path e (done content) = write_file codec fs path content (some e.version)

  unfoldable pub apply_length_changing_replace :
      EmbrFs V E → List ℕ → VersionedFileEntry → ℕ → List ℕ → List ℕ → Run (FsResult ℕ × EmbrFs V E)
  unfolding read_file replace_range write_back
  apply_length_changing_replace fs path e offset old_data new_data =
      elim (read_file codec fs path) [
        | failed error ↦ ok (failed error, fs)
        | done (content, version) ↦ do
          replaced ← replace_range content offset old_data new_data
          write_back fs path e replaced
      ]

  -- The match on the type of the delta.
  unfoldable pub dispatch :
      EmbrFs V E → List ℕ → VersionedFileEntry → DeltaType → Run (FsResult ℕ × EmbrFs V E)
  unfolding apply_byte_replace apply_multi_byte_replace apply_same_length_replace
      apply_length_changing_replace apply_append apply_truncate
  dispatch fs path e (byte_replace offset old_value new_value) =
      apply_byte_replace fs path e offset new_value
  dispatch fs path e (multi_byte_replace changes) = apply_multi_byte_replace fs path e changes
  dispatch fs path e (range_replace offset old_data new_data) =
      if length old_data == length new_data
      then apply_same_length_replace fs path e offset new_data
      else apply_length_changing_replace fs path e offset old_data new_data
  dispatch fs path e (append bytes) = apply_append fs path e bytes
  dispatch fs path e (truncate new_length truncated) = apply_truncate fs path e new_length
  dispatch fs path e (insert offset bytes) = ok (failed invalid_operation, fs)
  dispatch fs path e (delete offset len deleted) = ok (failed invalid_operation, fs)

  -- The version that a delta may expect.
  unfoldable pub check_expected : VersionedFileEntry → Option ℕ → Option EmbrFsError
  check_expected e none = none
  check_expected e (some expected) =
      if e.version == expected then none else some (version_mismatch expected e.version)

  -- A delta is its type and the version that it expects.
  unfoldable pub apply_delta :
      EmbrFs V E → List ℕ → DeltaType → Option ℕ → Run (FsResult ℕ × EmbrFs V E)
  unfolding get_file check_expected analyze_delta is_empty dispatch
  apply_delta fs path delta expected = elim (get_file fs.manifest path) [
    | none ↦ ok (failed (file_not_found path), fs)
    | some (e, v) ↦
        if e.deleted
        then ok (failed (file_not_found path), fs)
        else elim (check_expected e expected) [
          | some error ↦ ok (failed error, fs)
          | none ↦
              if is_empty (analyze_delta delta e.size default_chunk_size e.chunk_offsets)
              then ok (done e.version, fs)
              else dispatch fs path e delta
        ]
  ]
