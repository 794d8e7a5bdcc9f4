-- ===== src/Journal/Op/RoundTrip.antt =====
-- An operation is read back from what was written of it, whatever follows.
use embeddenator_fs.Prelude.{
  ℕ, suc, ◌+◌, ◌*◌, ◌%◌, ◌^◌, ◌≤◌, ◌≡◌, refl, ap, ◌∙◌, List, [], ◌∷◌, ◌++◌, length, length-append,
  append_assoc, arith, le→ltb, All,
}
use embeddenator_fs.Prelude.Bytes.{IsU32, IsU64, to_le, length-to_le}
use embeddenator_fs.Journal.Result.{
  ok, ◌>>=◌, truncated_path_len, truncated_path, truncated_chunk_count, truncated_chunk_id,
  truncated_size, truncated_delete_file, truncated_delete_file_path, truncated_delete_chunk,
  truncated_update_root,
}
use embeddenator_fs.Journal.Op.{
  JournalOp, write_chunk, delete_chunk, write_file, delete_file, update_root, barrier, ids_to_bytes,
  len_bytes, op_to_bytes, read_ids, read_write_chunk, read_delete_chunk, read_update_root,
  read_write_file, read_delete_file, read_op, op_from_bytes,
}
use embeddenator_fs.Journal.Op.Cursor.{
  At, At-start, At-fits, At-slice, At-next, At-word, word_at-At, read_word-At, read_bytes-At,
}

-- The values that an operation of the program has: 32-byte hashes, 64-bit ids and sizes, lists
-- whose length fits 32 bits, and paths that `lossy` leaves as they are.
abbrev pub IsOp : (List ℕ → List ℕ) → JournalOp → Type 0
IsOp lossy (write_chunk chunk_id data_hash data_len) =
    IsU64 chunk_id × (length data_hash ≡ 32) × IsU64 data_len
IsOp lossy (delete_chunk chunk_id) = IsU64 chunk_id
IsOp lossy (write_file path chunk_ids size) =
    (lossy path ≡ path)
    × IsU32 (length path)
    × IsU32 (length chunk_ids)
    × All IsU64 chunk_ids
    × IsU64 size
IsOp lossy (delete_file path) = (lossy path ≡ path) × IsU32 (length path)
IsOp lossy (update_root root_hash) = length root_hash ≡ 32
IsOp lossy barrier = Unit

pub length-ids_to_bytes : (ids : List ℕ) → length (ids_to_bytes ids) ≡ 8 * length ids
unfolding ids_to_bytes
length-ids_to_bytes [] = refl
length-ids_to_bytes (id ∷ ids) = omega (
  arith,
  length-append (to_le 8 id) (ids_to_bytes ids),
  length-to_le 8 id,
  length-ids_to_bytes ids,
)

read_ids-At :
    (bytes : List ℕ) (pos : ℕ) (ids rest : List ℕ)
    → At bytes pos (ids_to_bytes ids ++ rest)
    → All IsU64 ids
    → read_ids (length ids) bytes pos ≡ ok (ids, pos + 8 * length ids)
unfolding read_ids ids_to_bytes
read_ids-At bytes pos [] rest at h =
    let e : pos ≡ pos + 8 * 0 = omega arith in ap (λ (t : ℕ). ok ([], t)) e
read_ids-At bytes pos (id ∷ ids) rest at h =
    let here : At bytes pos (to_le 8 id ++ (ids_to_bytes ids ++ rest)) = rw append_assoc at at in
    let e : pos + 8 + 8 * length ids ≡ pos + 8 * suc (length ids) = omega arith in
    ap
      (λ r. r >>= λ (p : ℕ × ℕ).
        read_ids (length ids) bytes p.1 >>= λ (q : List ℕ × ℕ). ok (p.0 ∷ q.0, q.1))
      (read_word-At truncated_chunk_id bytes pos 8 id (ids_to_bytes ids ++ rest) here h.0)
    ∙ ap (λ r. r >>= λ (q : List ℕ × ℕ). ok (id ∷ q.0, q.1))
        (read_ids-At bytes (pos + 8) ids rest
          (At-word bytes pos 8 id (ids_to_bytes ids ++ rest) here) h.1)
    ∙ ap (λ (t : ℕ). ok (id ∷ ids, t)) e

write_chunk_at :
    (id len : ℕ) (hash rest : List ℕ)
    → IsU64 id
    → length hash ≡ 32
    → IsU64 len
    → read_write_chunk (op_to_bytes (write_chunk id hash len) ++ rest) 1
      ≡ ok (write_chunk id hash len, 49)
unfolding op_to_bytes read_write_chunk
write_chunk_at id len hash rest hid hh hl = rw (
  le→ltb (length bytes) 49 fits,
  word_at-At bytes 1 8 id (hash ++ (to_le 8 len ++ rest)) at hid,
  At-slice bytes 9 32 hash (to_le 8 len ++ rest) at_hash hh,
  word_at-At bytes 41 8 len rest at_len hl,
)
  where
    bytes : List ℕ
    bytes = op_to_bytes (write_chunk id hash len) ++ rest

    at : At bytes 1 (to_le 8 id ++ (hash ++ (to_le 8 len ++ rest)))
    at = At-start 1 ((to_le 8 id ++ (hash ++ to_le 8 len)) ++ rest) _ (simp append_assoc)

    at_hash : At bytes 9 (hash ++ (to_le 8 len ++ rest))
    at_hash = At-word bytes 1 8 id (hash ++ (to_le 8 len ++ rest)) at

    at_len : At bytes 41 (to_le 8 len ++ rest)
    at_len = At-next bytes 9 32 hash (to_le 8 len ++ rest) at_hash hh

    fits : 49 ≤ length bytes
    fits = At-fits bytes 41 8 (to_le 8 len) rest at_len (length-to_le 8 len)

delete_chunk_at :
    (id : ℕ) (rest : List ℕ)
    → IsU64 id
    → read_delete_chunk (op_to_bytes (delete_chunk id) ++ rest) 1 ≡ ok (delete_chunk id, 9)
unfolding read_delete_chunk
delete_chunk_at id rest h = rw (
    read_word-At truncated_delete_chunk (op_to_bytes (delete_chunk id) ++ rest) 1 8 id rest
      (unfold op_to_bytes in At-start 2 (to_le 8 id ++ rest) _ refl) h)

update_root_at :
    (hash rest : List ℕ)
    → length hash ≡ 32
    → read_update_root (op_to_bytes (update_root hash) ++ rest) 1 ≡ ok (update_root hash, 33)
unfolding read_update_root
update_root_at hash rest h = rw (
    read_bytes-At truncated_update_root (op_to_bytes (update_root hash) ++ rest) 1 32 hash rest
      (unfold op_to_bytes in At-start 5 (hash ++ rest) _ refl) h)

-- The length that is written is the length, if it fits 32 bits.
len_fits : (xs : List ℕ) → IsU32 (length xs) → length xs % 2 ^ 32 ≡ length xs
len_fits xs h = omega arith

module _ (lossy : List ℕ → List ℕ) where
  delete_file_at :
      (path rest : List ℕ)
      → lossy path ≡ path
      → IsU32 (length path)
      → read_delete_file lossy (op_to_bytes (delete_file path) ++ rest) 1
        ≡ ok (delete_file path, 5 + length path)
  unfolding read_delete_file
  delete_file_at path rest valid fits = rw (
    read_word-At truncated_delete_file bytes 1 4 (length path) (path ++ rest) at_len fits,
    read_bytes-At truncated_delete_file_path bytes 5 (length path) path rest
        (At-word bytes 1 4 (length path) (path ++ rest) at_len) refl,
    valid,
  )
    where
      bytes : List ℕ
      bytes = op_to_bytes (delete_file path) ++ rest

      at_len : At bytes 1 (to_le 4 (length path) ++ (path ++ rest))
      at_len =
          unfold op_to_bytes in
          At-start 4 ((len_bytes path ++ path) ++ rest) _
            (rw (len_fits path fits) (append_assoc (to_le 4 (length path)) path rest))

  write_file_at :
      (path ids rest : List ℕ) (size : ℕ)
      → lossy path ≡ path
      → IsU32 (length path)
      → IsU32 (length ids)
      → All IsU64 ids
      → IsU64 size
      → read_write_file lossy (op_to_bytes (write_file path ids size) ++ rest) 1
        ≡ ok (write_file path ids size, 1 + 4 + length path + 4 + 8 * length ids + 8)
  unfolding read_write_file
  write_file_at path ids rest size valid fits few small fits_size = rw (
    read_word-At truncated_path_len bytes 1 4 (length path) _ at_len fits,
    read_bytes-At truncated_path bytes (1 + 4) (length path) path _ at_path refl,
    read_word-At truncated_chunk_count bytes (1 + 4 + length path) 4 (length ids) _ at_count few,
    read_ids-At bytes (1 + 4 + length path + 4) ids _ at_ids small,
    read_word-At truncated_size bytes (1 + 4 + length path + 4 + 8 * length ids) 8 size rest at_size
        fits_size,
    valid,
  )
    where
      bytes : List ℕ
      bytes = op_to_bytes (write_file path ids size) ++ rest

      tail : List ℕ
      tail = ids_to_bytes ids ++ (to_le 8 size ++ rest)

      at_len : At bytes 1 (to_le 4 (length path) ++ (path ++ (to_le 4 (length ids) ++ tail)))
      at_len =
          unfold op_to_bytes in
          At-start 3 _ _ (rw (len_fits path fits, len_fits ids few) (simp append_assoc))

      at_path : At bytes (1 + 4) (path ++ (to_le 4 (length ids) ++ tail))
      at_path = At-word bytes 1 4 (length path) (path ++ (to_le 4 (length ids) ++ tail)) at_len

      at_count : At bytes (1 + 4 + length path) (to_le 4 (length ids) ++ tail)
      at_count =
          At-next bytes (1 + 4) (length path) path (to_le 4 (length ids) ++ tail) at_path refl

      at_ids : At bytes (1 + 4 + length path + 4) tail
      at_ids = At-word bytes (1 + 4 + length path) 4 (length ids) tail at_count

      at_size : At bytes (1 + 4 + length path + 4 + 8 * length ids) (to_le 8 size ++ rest)
      at_size =
          At-next bytes (1 + 4 + length path + 4) (8 * length ids) (ids_to_bytes ids)
            (to_le 8 size ++ rest) at_ids (length-ids_to_bytes ids)

  length-op_to_bytes-write_file :
      (path ids : List ℕ) (size : ℕ)
      → length (op_to_bytes (write_file path ids size))
        ≡ 1 + 4 + length path + 4 + 8 * length ids + 8
  unfolding op_to_bytes
  length-op_to_bytes-write_file path ids size =
      let inner = ids_to_bytes ids ++ to_le 8 size in
      omega (
        arith,
        length-append (len_bytes path) (path ++ (len_bytes ids ++ inner)),
        length-append path (len_bytes ids ++ inner),
        length-append (len_bytes ids) inner,
        length-append (ids_to_bytes ids) (to_le 8 size),
        length-to_le 4 (length path % 2 ^ 32),
        length-to_le 4 (length ids % 2 ^ 32),
        length-to_le 8 size,
        length-ids_to_bytes ids,
      )

  -- An operation of the program is read back from its bytes, whatever follows them, together with
  -- the number of bytes that were written of it.
  pub op_from_bytes-op_to_bytes :
      (op : JournalOp) (rest : List ℕ)
      → IsOp lossy op
      → op_from_bytes lossy (op_to_bytes op ++ rest) ≡ ok (op, length (op_to_bytes op))
  op_from_bytes-op_to_bytes (write_chunk id hash len) rest h =
      let size : length (op_to_bytes (write_chunk id hash len)) ≡ 49 =
        unfold op_to_bytes in
        omega (
          arith,
          length-append (to_le 8 id) (hash ++ to_le 8 len),
          length-append hash (to_le 8 len),
          length-to_le 8 id,
          length-to_le 8 len,
        ) in
      rw size
        (unfold op_from_bytes read_op op_to_bytes in write_chunk_at id len hash rest h.0 h.1 h.2)
  op_from_bytes-op_to_bytes (delete_chunk id) rest h =
      unfold op_from_bytes read_op op_to_bytes to_le in delete_chunk_at id rest h
  op_from_bytes-op_to_bytes (write_file path ids size) rest h =
      rw (length-op_to_bytes-write_file path ids size) (
        unfold op_from_bytes read_op op_to_bytes in
        write_file_at path ids rest size h.0 h.1 h.2 h.3 h.4)
  op_from_bytes-op_to_bytes (delete_file path) rest h =
      let size : length (op_to_bytes (delete_file path)) ≡ 5 + length path =
        unfold op_to_bytes in
        omega (arith, length-append (len_bytes path) path, length-to_le 4 (length path % 2 ^ 32)) in
      rw size (unfold op_from_bytes read_op op_to_bytes in delete_file_at path rest h.0 h.1)
  op_from_bytes-op_to_bytes (update_root hash) rest h =
      let size : length (op_to_bytes (update_root hash)) ≡ 33 = unfold op_to_bytes in omega arith in
      rw size (unfold op_from_bytes read_op op_to_bytes in update_root_at hash rest h)
  op_from_bytes-op_to_bytes barrier rest h = unfold op_from_bytes read_op op_to_bytes in refl
