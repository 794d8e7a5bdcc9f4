-- ===== src/Delta/Estimate.antt =====
-- The metadata of a delta, the estimate of the chunks that it touches, and the sums of an analysis.
-- The differences of chunk indices are not negative: the larger offset stands first.
use embeddenator_fs.Prelude.{
  ℕ, ◌+◌, ◌-◌, ◌/◌, ◌<◌, ◌≤◌, min, max, Option, none, some, List, [], ◌∷◌, Bool, true, false, ◌&&◌,
  ◌==◌, not, ltb, leb, if◌then◌else◌, length, arith,
}
use embeddenator_fs.Types.{wrap64}
use embeddenator_fs.Delta.{
  Change, DeltaType, byte_replace, multi_byte_replace, range_replace, insert, delete, append,
  truncate, AffectedChunks, div_ceil, remaining_in_last, get_chunk_id, analyze_delta,
  analyze_append,
}
use embeddenator_fs.Delta.Appended.{div_ceil-le_iff, div_ceil_enough, length-appended_chunks}

pub record Delta : Type 0 where
  pub delta_type : DeltaType
  pub expected_version : Option ℕ
  pub verify_old_data : Bool

abbrev pub new_delta : DeltaType → Delta
new_delta t = record { delta_type = t; expected_version = none; verify_old_data = true }

abbrev pub with_version : DeltaType → ℕ → Delta
with_version t version = record {
  delta_type = t;
  expected_version = some version;
  verify_old_data = true;
}

abbrev pub without_verification : Delta → Delta
without_verification d = record d { verify_old_data = false }

unfoldable pub least_offset : ℕ → List Change → ℕ
least_offset least [] = least
least_offset least ((offset, old_val, new_val) ∷ changes) = least_offset (min least offset) changes

unfoldable pub greatest_offset : ℕ → List Change → ℕ
greatest_offset greatest [] = greatest
greatest_offset greatest ((offset, old_val, new_val) ∷ changes) =
    greatest_offset (max greatest offset) changes

unfoldable pub affected_chunk_count : DeltaType → ℕ → ℕ
affected_chunk_count (byte_replace offset old_value new_value) chunk_size = 1
affected_chunk_count (multi_byte_replace []) chunk_size = 0
affected_chunk_count (multi_byte_replace ((offset, old_val, new_val) ∷ changes)) chunk_size =
    greatest_offset offset changes / chunk_size - least_offset offset changes / chunk_size + 1
affected_chunk_count (range_replace offset old_data new_data) chunk_size =
    wrap64 (offset + length new_data) / chunk_size - offset / chunk_size + 1
affected_chunk_count (insert offset bytes) chunk_size = max (div_ceil (length bytes) chunk_size) 1
affected_chunk_count (delete offset len deleted) chunk_size =
    wrap64 (offset + len) / chunk_size - offset / chunk_size + 1
affected_chunk_count (append bytes) chunk_size = div_ceil (length bytes) chunk_size
affected_chunk_count (truncate new_length truncated) chunk_size = 1

unfoldable pub total_affected : AffectedChunks → ℕ
total_affected a =
    length a.modified_chunks
    + length a.reencoded_chunks
    + length a.new_chunks
    + length a.removed_chunks

-- `Vec::is_empty`
no_elements {ℓ} : {A : Type ℓ} → List A → Bool
no_elements [] = true
no_elements (x ∷ xs) = false

unfoldable pub is_unaffected : AffectedChunks → Bool
unfolding no_elements
is_unaffected a =
    no_elements a.modified_chunks
    && no_elements a.reencoded_chunks
    && no_elements a.new_chunks
    && no_elements a.removed_chunks

at_most_one : (b c : Bool) (k : ℕ) → length (if b then (if c then k ∷ [] else []) else []) ≤ 1
at_most_one true true k = omega arith
at_most_one true false k = omega arith
at_most_one false c k = omega arith

sum_bound : {b c y : ℕ} → b ≤ 1 → c ≤ y → 0 + b + c + 0 ≤ y + 1
sum_bound p q = omega (arith, p, q)

-- The analysis of an append touches at most one chunk more than the estimate says, for a positive
-- chunk size.
pub total_affected-append :
    (bytes : List ℕ) (file_size chunk_size : ℕ)
    → 0 < chunk_size
    → total_affected (analyze_delta (append bytes) file_size chunk_size none)
      ≤ affected_chunk_count (append bytes) chunk_size + 1
unfolding analyze_delta analyze_append total_affected affected_chunk_count
total_affected-append bytes f s h =
    let r = remaining_in_last f s in
    let e = if leb (length bytes) r then 0 else length bytes - r in
    let fewer : e ≤ length bytes = ground arith in
    let new_count = length-appended_chunks f s (div_ceil e s) bytes r in
    let reencoded =
      at_most_one (ltb 0 r && not (length bytes == 0)) (ltb 0 (div_ceil f s))
        (get_chunk_id (div_ceil f s - 1) none) in
    let bound =
      (div_ceil-le_iff e (div_ceil (length bytes) s) s h).1
        (omega (arith, fewer, div_ceil_enough (length bytes) s h)) in
    rw new_count (sum_bound reencoded bound)
