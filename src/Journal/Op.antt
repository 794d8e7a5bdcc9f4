-- ===== src/Journal/Op.antt =====
-- `JournalOp` of src/fs/versioned/journal.rs. A path is the list of its UTF-8 bytes, and `lossy`
-- stands for `String::from_utf8_lossy`, which leaves valid UTF-8 as it is.
pub mod Cursor
pub mod RoundTrip
pub mod Progress
use embeddenator_fs.Prelude.{
  ℕ, zero, suc, ◌+◌, ◌%◌, ◌^◌, List, [], ◌∷◌, ◌++◌, ltb, ◌==◌, if◌then◌else◌, length,
}
use embeddenator_fs.Prelude.Bytes.{to_le, slice}
use embeddenator_fs.Journal.Record.{word_at}
use embeddenator_fs.Journal.Result.{
  Error, Result, ok, err, ◌>>=◌, empty_data, unknown_op_type, truncated_write_chunk,
  truncated_delete_chunk, truncated_update_root, truncated_path_len, truncated_path,
  truncated_chunk_count, truncated_chunk_id, truncated_size, truncated_delete_file,
  truncated_delete_file_path,
}

pub data JournalOp : Type 0 where
  write_chunk : ℕ → List ℕ → ℕ → JournalOp
  delete_chunk : ℕ → JournalOp
  write_file : List ℕ → List ℕ → ℕ → JournalOp
  delete_file : List ℕ → JournalOp
  update_root : List ℕ → JournalOp
  barrier : JournalOp

-- The loop that writes the chunk ids.
unfoldable pub ids_to_bytes : List ℕ → List ℕ
ids_to_bytes [] = []
ids_to_bytes (id ∷ ids) = to_le 8 id ++ ids_to_bytes ids

-- `len() as u32`, in 4 bytes
abbrev pub len_bytes : List ℕ → List ℕ
len_bytes xs = to_le 4 (length xs % 2 ^ 32)

unfoldable pub op_to_bytes : JournalOp → List ℕ
unfolding ids_to_bytes
op_to_bytes (write_chunk chunk_id data_hash data_len) =
    1 ∷ (to_le 8 chunk_id ++ (data_hash ++ to_le 8 data_len))
op_to_bytes (delete_chunk chunk_id) = 2 ∷ to_le 8 chunk_id
op_to_bytes (write_file path chunk_ids size) =
    3
    ∷ (len_bytes path
        ++ (path ++ (len_bytes chunk_ids ++ (ids_to_bytes chunk_ids ++ to_le 8 size))))
op_to_bytes (delete_file path) = 4 ∷ (len_bytes path ++ path)
op_to_bytes (update_root root_hash) = 5 ∷ root_hash
op_to_bytes barrier = 6 ∷ []

-- A check of the length, then the word or the bytes at `pos`, and the new `pos`.
unfoldable pub read_word : Error → ℕ → List ℕ → ℕ → Result (ℕ × ℕ)
read_word e n bytes pos =
    if ltb (length bytes) (pos + n) then err e else ok (word_at bytes pos (pos + n), pos + n)

unfoldable pub read_bytes : Error → ℕ → List ℕ → ℕ → Result (List ℕ × ℕ)
read_bytes e n bytes pos =
    if ltb (length bytes) (pos + n) then err e else ok (slice bytes pos (pos + n), pos + n)

-- The loop `for _ in 0..chunk_count`.
unfoldable pub read_ids : ℕ → List ℕ → ℕ → Result (List ℕ × ℕ)
read_ids zero bytes pos = ok ([], pos)
read_ids (suc count) bytes pos = do
  (id, next) ← read_word truncated_chunk_id 8 bytes pos
  (ids, end) ← read_ids count bytes next
  ok (id ∷ ids, end)

unfoldable pub read_write_chunk : List ℕ → ℕ → Result (JournalOp × ℕ)
read_write_chunk bytes pos =
    if ltb (length bytes) (pos + 8 + 32 + 8)
    then err truncated_write_chunk
    else ok (
      write_chunk (word_at bytes pos (pos + 8)) (slice bytes (pos + 8) (pos + 8 + 32))
          (word_at bytes (pos + 8 + 32) (pos + 8 + 32 + 8)),
      pos + 8 + 32 + 8,
    )

unfoldable pub read_delete_chunk : List ℕ → ℕ → Result (JournalOp × ℕ)
read_delete_chunk bytes pos = do
  (chunk_id, end) ← read_word truncated_delete_chunk 8 bytes pos
  ok (delete_chunk chunk_id, end)

unfoldable pub read_update_root : List ℕ → ℕ → Result (JournalOp × ℕ)
read_update_root bytes pos = do
  (root_hash, end) ← read_bytes truncated_update_root 32 bytes pos
  ok (update_root root_hash, end)

module _ (lossy : List ℕ → List ℕ) where
  unfoldable pub read_write_file : List ℕ → ℕ → Result (JournalOp × ℕ)
  read_write_file bytes pos = do
    (path_len, at_path) ← read_word truncated_path_len 4 bytes pos
    (path, at_count) ← read_bytes truncated_path path_len bytes at_path
    (chunk_count, at_ids) ← read_word truncated_chunk_count 4 bytes at_count
    (chunk_ids, at_size) ← read_ids chunk_count bytes at_ids
    (size, end) ← read_word truncated_size 8 bytes at_size
    ok (write_file (lossy path) chunk_ids size, end)

  unfoldable pub read_delete_file : List ℕ → ℕ → Result (JournalOp × ℕ)
  read_delete_file bytes pos = do
    (path_len, at_path) ← read_word truncated_delete_file 4 bytes pos
    (path, end) ← read_bytes truncated_delete_file_path path_len bytes at_path
    ok (delete_file (lossy path), end)

  -- The match on the first byte.
  unfoldable pub read_op : ℕ → List ℕ → Result (JournalOp × ℕ)
  read_op op_type bytes =
      if op_type == 1
      then read_write_chunk bytes 1
      else if op_type == 2
      then read_delete_chunk bytes 1
      else if op_type == 3
      then read_write_file bytes 1
      else if op_type == 4
      then read_delete_file bytes 1
      else if op_type == 5
      then read_update_root bytes 1
      else if op_type == 6
      then ok (barrier, 1)
      else err (unknown_op_type op_type)

  unfoldable pub op_from_bytes : List ℕ → Result (JournalOp × ℕ)
  op_from_bytes [] = err empty_data
  op_from_bytes (op_type ∷ rest) = read_op op_type (op_type ∷ rest)
