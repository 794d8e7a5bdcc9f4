-- ===== src/Journal/Op/Progress.antt =====
-- What `op_from_bytes` takes of its input.
use embeddenator_fs.Prelude.{
  ℕ, zero, suc, ◌≤◌, ◌≡◌, refl, ◌⊎◌, inl, inr, Bool, true, false, List, [], ◌∷◌, length, arith,
  if◌then◌else◌, ◌==◌,
}
use embeddenator_fs.Journal.Result.{
  Error, Result, ok, err, stuck, ◌>>=◌, truncated_path_len, truncated_path, truncated_chunk_count,
  truncated_chunk_id, truncated_size, truncated_delete_file, truncated_delete_file_path,
  truncated_delete_chunk, truncated_update_root,
}
use embeddenator_fs.Journal.Op.{
  JournalOp, read_word, read_bytes, read_ids, read_write_chunk, read_delete_chunk, read_update_root,
  read_write_file, read_delete_file, read_op, op_from_bytes,
}

-- A result that is no lack of fuel, and whose new position lies between `lo` and `hi`.
abbrev Moves {ℓ} : {A : Type ℓ} → ℕ → ℕ → Result (A × ℕ) → Type 0
Moves lo hi (ok (a, end)) = (lo ≤ end) × (end ≤ hi)
Moves lo hi (err e) = Unit
Moves lo hi stuck = ⊥

Moves-read_word :
    (e : Error) (n : ℕ) (bytes : List ℕ) (pos : ℕ)
    → Moves pos (length bytes) (read_word e n bytes pos)
unfolding read_word
Moves-read_word e n bytes pos = ground arith

Moves-read_bytes :
    (e : Error) (n : ℕ) (bytes : List ℕ) (pos : ℕ)
    → Moves pos (length bytes) (read_bytes e n bytes pos)
unfolding read_bytes
Moves-read_bytes e n bytes pos = ground arith

Moves-weaken {ℓ} :
    {A : Type ℓ} (lo mid hi : ℕ) (r : Result (A × ℕ)) → lo ≤ mid → Moves mid hi r → Moves lo hi r
Moves-weaken lo mid hi (ok (b, e)) h m = (omega arith, m.1)
Moves-weaken lo mid hi (err e) h m = tt
Moves-weaken lo mid hi stuck h m = m

-- A chain of steps moves on.
Moves-bind {ℓ κ} :
    {A : Type ℓ} {B : Type κ} (lo hi : ℕ) (r : Result (A × ℕ)) (f : A × ℕ → Result (B × ℕ))
    → Moves lo hi r
    → ((a : A) (end : ℕ) → end ≤ hi → Moves end hi (f (a, end)))
    → Moves lo hi (r >>= f)
Moves-bind lo hi (ok (a, end)) f m k = Moves-weaken lo end hi (f (a, end)) m.0 (k a end m.1)
Moves-bind lo hi (err e) f m k = tt
Moves-bind lo hi stuck f m k = absurd m

Moves-read_ids :
    (n : ℕ) (bytes : List ℕ) (pos : ℕ)
    → pos ≤ length bytes
    → Moves pos (length bytes) (read_ids n bytes pos)
unfolding read_ids
Moves-read_ids zero bytes pos h = omega arith
Moves-read_ids (suc n) bytes pos h =
    Moves-bind pos (length bytes) (read_word truncated_chunk_id 8 bytes pos) _
      (Moves-read_word truncated_chunk_id 8 bytes pos)
      λ id next hn.
        Moves-bind next (length bytes) (read_ids n bytes next) _ (Moves-read_ids n bytes next hn)
          λ ids end he. (omega arith, he)

Moves-write_chunk : (bytes : List ℕ) → Moves 1 (length bytes) (read_write_chunk bytes 1)
unfolding read_write_chunk
Moves-write_chunk bytes = ground arith

module _ (lossy : List ℕ → List ℕ) (bytes : List ℕ) where
  Moves-write_file : Moves 1 (length bytes) (read_write_file lossy bytes 1)
  unfolding read_write_file
  Moves-write_file =
      Moves-bind 1 (length bytes) (read_word truncated_path_len 4 bytes 1) _
        (Moves-read_word truncated_path_len 4 bytes 1)
        λ n p1 h1.
          Moves-bind p1 (length bytes) (read_bytes truncated_path n bytes p1) _
            (Moves-read_bytes truncated_path n bytes p1)
            λ path p2 h2.
              Moves-bind p2 (length bytes) (read_word truncated_chunk_count 4 bytes p2) _
                (Moves-read_word truncated_chunk_count 4 bytes p2)
                λ count p3 h3.
                  Moves-bind p3 (length bytes) (read_ids count bytes p3) _
                    (Moves-read_ids count bytes p3 h3)
                    λ ids p4 h4.
                      Moves-bind p4 (length bytes) (read_word truncated_size 8 bytes p4) _
                        (Moves-read_word truncated_size 8 bytes p4) λ size p5 h5. (omega arith, h5)

  Moves-delete_file : Moves 1 (length bytes) (read_delete_file lossy bytes 1)
  unfolding read_delete_file
  Moves-delete_file =
      Moves-bind 1 (length bytes) (read_word truncated_delete_file 4 bytes 1) _
        (Moves-read_word truncated_delete_file 4 bytes 1)
        λ n p1 h1.
          Moves-bind p1 (length bytes) (read_bytes truncated_delete_file_path n bytes p1) _
            (Moves-read_bytes truncated_delete_file_path n bytes p1) λ path p2 h2. (omega arith, h2)

  Moves-delete_chunk : Moves 1 (length bytes) (read_delete_chunk bytes 1)
  unfolding read_delete_chunk
  Moves-delete_chunk =
      Moves-bind 1 (length bytes) (read_word truncated_delete_chunk 8 bytes 1) _
        (Moves-read_word truncated_delete_chunk 8 bytes 1) λ id p h. (omega arith, h)

  Moves-update_root : Moves 1 (length bytes) (read_update_root bytes 1)
  unfolding read_update_root
  Moves-update_root =
      Moves-bind 1 (length bytes) (read_bytes truncated_update_root 32 bytes 1) _
        (Moves-read_bytes truncated_update_root 32 bytes 1) λ hash p h. (omega arith, h)

  Moves-read_op :
      (op_type : ℕ) → 1 ≤ length bytes → Moves 1 (length bytes) (read_op lossy op_type bytes)
  unfolding read_op
  Moves-read_op op_type h = Moves-if (op_type == 1) _ _ (Moves-write_chunk bytes) (
      Moves-if (op_type == 2) _ _ Moves-delete_chunk (
        Moves-if (op_type == 3) _ _ Moves-write_file (
          Moves-if (op_type == 4) _ _ Moves-delete_file (
            Moves-if (op_type == 5) _ _ Moves-update_root
              (Moves-if (op_type == 6) _ _ (omega arith, h) tt)))))
    where
      Moves-if :
          (b : Bool) (r s : Result (JournalOp × ℕ))
          → Moves 1 (length bytes) r
          → Moves 1 (length bytes) s
          → Moves 1 (length bytes) (if b then r else s)
      Moves-if true r s m n = m
      Moves-if false r s m n = n

-- An operation takes at least one byte and no more than there are, and reading one always ends in
-- an operation or an error.
pub op_from_bytes_consumed :
    (lossy : List ℕ → List ℕ) (bytes : List ℕ)
    → ((e : Error) × (op_from_bytes lossy bytes ≡ err e))
      ⊎ ((op : JournalOp) × (n : ℕ) × (op_from_bytes lossy bytes ≡ ok (op, n))
          × (1 ≤ n)
          × (n ≤ length bytes))
op_from_bytes_consumed lossy bytes = split (op_from_bytes lossy bytes) (moves bytes)
  where
    moves : (bs : List ℕ) → Moves 1 (length bs) (op_from_bytes lossy bs)
    moves [] = unfold op_from_bytes in tt
    moves (b ∷ bs) = unfold op_from_bytes in Moves-read_op lossy (b ∷ bs) b (omega arith)

    split :
        (r : Result (JournalOp × ℕ))
        → Moves 1 (length bytes) r
        → ((e : Error) × (r ≡ err e))
          ⊎ ((op : JournalOp) × (n : ℕ) × (r ≡ ok (op, n)) × (1 ≤ n) × (n ≤ length bytes))
    split (ok (op, n)) m = inr (op, n, refl, m.0, m.1)
    split (err e) m = inl (e, refl)
    split stuck m = absurd m
