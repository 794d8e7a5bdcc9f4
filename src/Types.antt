-- ===== src/Types.antt =====
-- src/fs/versioned/types.rs: chunk ids, offset index entries and version conflicts. `usize` and
-- u64 have 64 bits, and their sums wrap as in a release build.
use embeddenator_fs.Prelude.{
  ℕ, ◌+◌, ◌-◌, ◌%◌, ◌^◌, Option, none, some, Bool, ◌&&◌, ltb, leb, if◌then◌else◌, ◌==◌,
}

abbrev pub wrap64 : ℕ → ℕ
wrap64 n = n % 2 ^ 64

pub record ChunkOffset : Type 0 where
  pub chunk_id : ℕ
  pub byte_offset : ℕ
  pub byte_length : ℕ

unfoldable pub end_offset : ChunkOffset → ℕ
end_offset c = wrap64 (c.byte_offset + c.byte_length)

unfoldable pub contains : ChunkOffset → ℕ → Bool
unfolding end_offset
contains c offset = leb c.byte_offset offset && ltb offset (end_offset c)

unfoldable pub offset_within : ChunkOffset → ℕ → Option ℕ
unfolding contains
offset_within c file_offset =
    if contains c file_offset then some (file_offset - c.byte_offset) else none

pub record VersionMismatch : Type 0 where
  pub expected : ℕ
  pub actual : ℕ

-- `VersionedResult`
pub data VersionedResult {ℓ} (A : Type ℓ) : Type ℓ where
  ok : A → VersionedResult A
  err : VersionMismatch → VersionedResult A

pub record ChunkRange : Type 0 where
  pub chunk_id : ℕ
  pub start_within_chunk : ℕ
  pub length : ℕ

abbrev pub is_full_chunk : ChunkRange → ℕ → Bool
is_full_chunk r chunk_size = r.start_within_chunk == 0 && (r.length == chunk_size)
