-- ===== src/Delta/Ranges.antt =====
-- A range replacement and the multi-byte replacement of its differing bytes.
use embeddenator_fs.Prelude.{
  ℕ, ◌+◌, ◌/◌, ◌%◌, ◌^◌, ◌<◌, ◌≤◌, ◌≡◌, sym, ap, ◌∙◌, Option, List, [], ◌∷◌, ◌++◌, append_assoc,
  append-nil, true, ltb, ◌==◌, ==_iff, if◌then◌else◌, length, arith, Bool-cases, inl, inr,
}
use embeddenator_fs.Types.{ChunkOffset}
use embeddenator_fs.Delta.{
  Change, multi_byte_replace, range_replace, push_change, group_range, get_chunk_id, analyze_delta,
  analyze_range_replace,
}
use embeddenator_fs.Delta.Group.{
  changes_in, changes_of, IsGrouped, no_groups, no_changes, push_change-IsGrouped,
  changes_in-push_change, in_chunk, AreInFile, none_in_file, chunk_in_file, push_change-AreInFile,
  HasOwnId, changes_of-modification, multi_byte_replace-grouped,
}

-- The changed bytes of a range that begins at `offset`, each with its place in the file.
unfoldable pub range_changes : ℕ → List ℕ → List ℕ → List Change
range_changes offset [] new_bytes = []
range_changes offset (o ∷ os) [] = []
range_changes offset (o ∷ os) (n ∷ ns) =
    (if o == n then [] else (offset, o, n) ∷ []) ++ range_changes (offset + 1) os ns

changes_in-group_range :
    (file_size chunk_size k offset : ℕ) (os ns : List ℕ) (m : List (ℕ × List Change))
    → IsGrouped m
    → length os ≡ length ns
    → offset + length os ≤ file_size
    → file_size < 2 ^ 64
    → changes_in k (group_range chunk_size offset os ns m)
      ≡ changes_in k m ++ in_chunk file_size chunk_size k (range_changes offset os ns)
unfolding group_range range_changes in_chunk
changes_in-group_range f s k o [] [] m h l p q = sym (append-nil _)
changes_in-group_range f s k o [] (y ∷ ns) m h l p q = absurd (omega arith)
changes_in-group_range f s k o (x ∷ os) [] m h l p q = absurd (omega arith)
changes_in-group_range f s k o (x ∷ os) (y ∷ ns) m h l p q =
    let next : (o + 1) % 2 ^ 64 ≡ o + 1 = omega arith in
    let in_file : ltb o f ≡ true = ground arith in
    let c : Change = (o % s, x, y) in
    elim (Bool-cases (x == y)) [
      | inl e ↦
          rw (e, next)
            (changes_in-group_range f s k (o + 1) os ns m h (omega arith) (omega arith) q)
      | inr e ↦
          rw (e, next, in_file)
            (changes_in-group_range f s k (o + 1) os ns (push_change (o / s) c m)
                (push_change-IsGrouped (o / s) c m h) (omega arith) (omega arith) q
              ∙ ap (λ t. t ++ in_chunk f s k (range_changes (o + 1) os ns))
                  (changes_in-push_change (o / s) k c m h)
              ∙ append_assoc (changes_in k m) (if o / s == k then c ∷ [] else [])
                  (in_chunk f s k (range_changes (o + 1) os ns)))
    ]

group_range-AreInFile :
    (f s offset : ℕ) (os ns : List ℕ) (m : List (ℕ × List Change))
    → offset + length os ≤ f
    → f < 2 ^ 64
    → AreInFile f s m
    → AreInFile f s (group_range s offset os ns m)
unfolding group_range
group_range-AreInFile f s o [] ns m p q h = h
group_range-AreInFile f s o (x ∷ os) [] m p q h = h
group_range-AreInFile f s o (x ∷ os) (y ∷ ns) m p q h =
    let next : (o + 1) % 2 ^ 64 ≡ o + 1 = omega arith in
    elim (Bool-cases (x == y)) [
      | inl e ↦ rw (e, next) (group_range-AreInFile f s (o + 1) os ns m (omega arith) q h)
      | inr e ↦
          rw (e, next)
            (group_range-AreInFile f s (o + 1) os ns (push_change (o / s) (o % s, x, y) m)
              (omega arith) q
              (push_change-AreInFile f s (o / s) (o % s, x, y) m (chunk_in_file o f s (omega arith))
                h))
    ]

-- A range replacement of equal lengths inside a file of fewer than 2^64 bytes reports what the
-- multi-byte replacement of its differing bytes reports for every chunk whose id is that of no other
-- chunk of the file, where the chunk size is positive.
pub range_replace-multi_byte_replace :
    (offset : ℕ) (old_data new_data : List ℕ) (file_size chunk_size k : ℕ)
    (offsets : Option (List ChunkOffset))
    → length old_data ≡ length new_data
    → offset + length old_data ≤ file_size
    → file_size < 2 ^ 64
    → 0 < chunk_size
    → HasOwnId file_size chunk_size offsets k
    → changes_of
        (get_chunk_id k offsets)
        (analyze_delta
          (range_replace offset old_data new_data)
          file_size
          chunk_size
          offsets).modified_chunks
      ≡ changes_of
          (get_chunk_id k offsets)
          (analyze_delta
            (multi_byte_replace (range_changes offset old_data new_data))
            file_size
            chunk_size
            offsets).modified_chunks
unfolding analyze_delta analyze_range_replace
range_replace-multi_byte_replace o os ns f s k offsets l p q positive alone =
    let same : (length os == length ns) ≡ true = (==_iff (length os) (length ns)).1 l in
    rw same (
      changes_of-modification f s k offsets (group_range s o os ns []) alone
        (group_range-AreInFile f s o os ns [] p q (none_in_file f s))
      ∙ changes_in-group_range f s k o os ns [] no_groups l p q
      ∙ ap (λ t. t ++ in_chunk f s k (range_changes o os ns)) (no_changes k))
    ∙ sym (multi_byte_replace-grouped (range_changes o os ns) f s k offsets positive alone)
