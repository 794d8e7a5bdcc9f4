-- ===== src/Delta.antt =====
-- src/fs/delta.rs: which chunks of a file a delta affects. Theorems take a positive chunk size;
-- at 0 the source panics. A `HashMap` of changes is an association list, whose order means nothing.
pub mod Group
pub mod Ranges
pub mod Appended
pub mod Chunks
pub mod Estimate
mod Runs
use embeddenator_fs.Prelude.{
  ℕ, zero, suc, ◌+◌, ◌-◌, ◌*◌, ◌/◌, ◌%◌, min, max, Option, none, some, List, [], ◌∷◌, ◌++◌, map,
  Bool, true, false, ◌&&◌, not, ltb, leb, ◌==◌, if◌then◌else◌, length, get_elem?,
}
use embeddenator_fs.Prelude.Bytes.{slice}
use embeddenator_fs.Types.{ChunkOffset, wrap64}

-- An offset, the old byte and the new byte.
abbrev pub Change : Type 0
Change = ℕ × ℕ × ℕ

pub data DeltaType : Type 0 where
  byte_replace : ℕ → ℕ → ℕ → DeltaType
  multi_byte_replace : List Change → DeltaType
  range_replace : ℕ → List ℕ → List ℕ → DeltaType
  insert : ℕ → List ℕ → DeltaType
  delete : ℕ → ℕ → List ℕ → DeltaType
  append : List ℕ → DeltaType
  truncate : ℕ → List ℕ → DeltaType

unfoldable pub is_non_shifting : DeltaType → Bool
is_non_shifting (byte_replace o a b) = true
is_non_shifting (multi_byte_replace cs) = true
is_non_shifting (range_replace o a b) = true
is_non_shifting _ = false

unfoldable pub changes_length : DeltaType → Bool
changes_length (insert o d) = true
changes_length (delete o n d) = true
changes_length (append d) = true
changes_length (truncate n d) = true
changes_length _ = false

pub record ChunkModification : Type 0 where
  pub chunk_id : ℕ
  pub byte_changes : List Change
  pub chunk_offset : Option ChunkOffset

pub record NewChunk : Type 0 where
  pub bytes : List ℕ
  pub file_offset : ℕ

pub record AffectedChunks : Type 0 where
  pub modified_chunks : List ChunkModification
  pub reencoded_chunks : List ℕ
  pub new_chunks : List NewChunk
  pub removed_chunks : List ℕ

abbrev pub empty : AffectedChunks
empty = record { modified_chunks = []; reencoded_chunks = []; new_chunks = []; removed_chunks = [] }

-- `chunk_offsets.and_then(|co| co.get(chunk_idx))`
unfoldable pub chunk_offset_at : Option (List ChunkOffset) → ℕ → Option ChunkOffset
chunk_offset_at none chunk_idx = none
chunk_offset_at (some offsets) chunk_idx = get_elem? offsets chunk_idx

abbrev id_or : ℕ → Option ChunkOffset → ℕ
id_or chunk_idx none = chunk_idx
id_or chunk_idx (some c) = c.chunk_id

unfoldable pub get_chunk_id : ℕ → Option (List ChunkOffset) → ℕ
unfolding chunk_offset_at
get_chunk_id chunk_idx offsets = id_or chunk_idx (chunk_offset_at offsets chunk_idx)

unfoldable pub div_ceil : ℕ → ℕ → ℕ
div_ceil a b = if a % b == 0 then a / b else a / b + 1

-- The ids of the chunks `first..first + count`.
unfoldable pub chunk_ids : Option (List ChunkOffset) → ℕ → ℕ → List ℕ
chunk_ids offsets first zero = []
chunk_ids offsets first (suc count) =
    get_chunk_id first offsets ∷ chunk_ids offsets (first + 1) count

-- `changes_by_chunk.entry(chunk_idx).or_default().push(change)`
unfoldable pub push_change : ℕ → Change → List (ℕ × List Change) → List (ℕ × List Change)
push_change k c [] = (k, c ∷ []) ∷ []
push_change k c ((j, cs) ∷ m) =
    let later = push_change k c m in if j == k then (j, cs ++ (c ∷ [])) ∷ m else (j, cs) ∷ later

-- The loop over the changes of a multi-byte replacement.
unfoldable pub group_changes : ℕ → ℕ → List Change → List (ℕ × List Change) → List (ℕ × List Change)
group_changes file_size chunk_size [] m = m
group_changes file_size chunk_size ((offset, old_val, new_val) ∷ changes) m =
    group_changes file_size chunk_size changes (
      if leb file_size offset
      then m
      else push_change (offset / chunk_size) (offset % chunk_size, old_val, new_val) m)

-- The loop over a range, with the offset of its first byte left.
unfoldable pub group_range :
    ℕ → ℕ → List ℕ → List ℕ → List (ℕ × List Change) → List (ℕ × List Change)
group_range chunk_size offset [] new_bytes m = m
group_range chunk_size offset (o ∷ os) [] m = m
group_range chunk_size offset (o ∷ os) (n ∷ ns) m =
    group_range chunk_size (wrap64 (offset + 1)) os ns
      (if o == n then m else push_change (offset / chunk_size) (offset % chunk_size, o, n) m)

abbrev pub modification : Option (List ChunkOffset) → ℕ × List Change → ChunkModification
modification offsets (chunk_idx, byte_changes) = record {
  chunk_id = get_chunk_id chunk_idx offsets;
  byte_changes = byte_changes;
  chunk_offset = chunk_offset_at offsets chunk_idx;
}

-- Placeholders, which the application of the delta fills.
unfoldable pub blank_chunks : ℕ → List NewChunk
blank_chunks zero = []
blank_chunks (suc n) = record { bytes = []; file_offset = 0 } ∷ blank_chunks n

-- The loop over the new chunks of an append, with the rounds left and `chunk_start`.
unfoldable pub appended_chunks : ℕ → ℕ → ℕ → List ℕ → ℕ → List NewChunk
appended_chunks file_size chunk_size zero bytes chunk_start = []
appended_chunks file_size chunk_size (suc n) bytes chunk_start =
    record {
      bytes = slice bytes chunk_start (min (chunk_start + chunk_size) (length bytes));
      file_offset = wrap64 (file_size + chunk_start);
    }
    ∷ appended_chunks file_size chunk_size n bytes (chunk_start + chunk_size)

-- The free bytes of the last chunk.
unfoldable pub remaining_in_last : ℕ → ℕ → ℕ
remaining_in_last file_size chunk_size =
    let bytes_in_last_chunk = if file_size == 0 then 0 else (file_size - 1) % chunk_size + 1 in
    if ltb 0 bytes_in_last_chunk then chunk_size - bytes_in_last_chunk else 0

module _ (file_size chunk_size : ℕ) (offsets : Option (List ChunkOffset)) where
  unfoldable pub analyze_byte_replace : ℕ → ℕ → ℕ → AffectedChunks
  analyze_byte_replace offset old_value new_value =
      if leb file_size offset then empty else record empty {
        modified_chunks =
            modification offsets
              (offset / chunk_size, (offset % chunk_size, old_value, new_value) ∷ [])
            ∷ [];
      }

  unfoldable pub analyze_range_replace : ℕ → List ℕ → List ℕ → AffectedChunks
  analyze_range_replace offset old_data new_data =
      let start_chunk = offset / chunk_size in
      let end_chunk = wrap64 (offset + max (length old_data) (length new_data)) / chunk_size in
      if not (length old_data == length new_data)
      then record empty {
        reencoded_chunks = chunk_ids offsets start_chunk (end_chunk + 1 - start_chunk);
      }
      else record empty {
        modified_chunks =
            map (modification offsets) (group_range chunk_size offset old_data new_data []);
      }

  unfoldable pub analyze_insert : ℕ → List ℕ → AffectedChunks
  analyze_insert offset bytes =
      let start_chunk = offset / chunk_size in
      let total_chunks = div_ceil file_size chunk_size in
      let new_total_chunks = div_ceil (wrap64 (file_size + length bytes)) chunk_size in
      record empty {
        reencoded_chunks = chunk_ids offsets start_chunk (total_chunks - start_chunk);
        new_chunks =
            if ltb total_chunks new_total_chunks
            then blank_chunks (new_total_chunks - total_chunks)
            else [];
      }

  unfoldable pub analyze_delete : ℕ → ℕ → AffectedChunks
  analyze_delete offset len =
      let start_chunk = offset / chunk_size in
      let total_chunks = div_ceil file_size chunk_size in
      let new_total_chunks = div_ceil (file_size - len) chunk_size in
      record empty {
        reencoded_chunks = chunk_ids offsets start_chunk (total_chunks - start_chunk);
        removed_chunks =
            if ltb new_total_chunks total_chunks
            then chunk_ids offsets new_total_chunks (total_chunks - new_total_chunks)
            else [];
      }

  unfoldable pub analyze_append : List ℕ → AffectedChunks
  analyze_append bytes =
      let current_chunks = div_ceil file_size chunk_size in
      let remaining = remaining_in_last file_size chunk_size in
      let data_for_new_chunks =
        if leb (length bytes) remaining then 0 else length bytes - remaining in
      record empty {
        reencoded_chunks =
            if ltb 0 remaining && not (length bytes == 0)
            then (if ltb 0 current_chunks
                then get_chunk_id (current_chunks - 1) offsets ∷ []
                else [])
            else [];
        new_chunks =
            appended_chunks file_size chunk_size (div_ceil data_for_new_chunks chunk_size) bytes
              remaining;
      }

  unfoldable pub analyze_truncate : ℕ → AffectedChunks
  analyze_truncate new_length =
      let new_count = div_ceil new_length chunk_size in
      let old_count = div_ceil file_size chunk_size in
      if leb file_size new_length then empty else record empty {
        reencoded_chunks =
            if not (new_length % chunk_size == 0) && ltb 0 new_count
            then get_chunk_id (new_count - 1) offsets ∷ []
            else [];
        removed_chunks = chunk_ids offsets new_count (old_count - new_count);
      }

-- `delta.delta_type`, the file size, the chunk size and the offset index.
unfoldable pub analyze_delta : DeltaType → ℕ → ℕ → Option (List ChunkOffset) → AffectedChunks
unfolding analyze_byte_replace analyze_range_replace analyze_insert analyze_delete analyze_append
    analyze_truncate
analyze_delta (byte_replace offset old_value new_value) file_size chunk_size offsets =
    analyze_byte_replace file_size chunk_size offsets offset old_value new_value
analyze_delta (multi_byte_replace changes) file_size chunk_size offsets = record empty {
  modified_chunks = map (modification offsets) (group_changes file_size chunk_size changes []);
}
analyze_delta (range_replace offset old_data new_data) file_size chunk_size offsets =
    analyze_range_replace file_size chunk_size offsets offset old_data new_data
analyze_delta (insert offset bytes) file_size chunk_size offsets =
    analyze_insert file_size chunk_size offsets offset bytes
analyze_delta (delete offset len deleted) file_size chunk_size offsets =
    analyze_delete file_size chunk_size offsets offset len
analyze_delta (append bytes) file_size chunk_size offsets =
    analyze_append file_size chunk_size offsets bytes
analyze_delta (truncate new_length truncated) file_size chunk_size offsets =
    analyze_truncate file_size chunk_size offsets new_length
