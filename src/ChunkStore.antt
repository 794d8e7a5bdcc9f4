-- ===== src/ChunkStore.antt =====
-- src/fs/versioned/chunk.rs and src/fs/versioned/chunk_store.rs: chunks that count their
-- references, and the store that keeps them under a global version. A method holds the locks of
-- the store from its first line to its last, so that it is one step on the state. `V` is the type of
-- the encoded data. The times of a chunk are left out.
pub mod Versions
pub mod Index
pub mod Gc
mod Runs
use embeddenator_fs.Prelude.{
  ℕ, ◌+◌, ◌-◌, ◌^◌, ◌%◌, Option, none, some, List, [], ◌∷◌, Bool, true, false, ◌==◌, ltb,
  if◌then◌else◌, length,
}
use embeddenator_fs.Prelude.Assoc.{lookup, without, insert as put, nat_key, bytes_key}
use embeddenator_fs.Types.{VersionedResult, ok, err, VersionMismatch, wrap64}

pub record VersionedChunk {ℓ} (V : Type ℓ) : Type ℓ where
  pub vector : V
  pub version : ℕ
  pub ref_count : ℕ
  pub original_size : ℕ
  pub content_hash : List ℕ

module _ {ℓ} {V : Type ℓ} where
  abbrev pub new_chunk : V → ℕ → List ℕ → VersionedChunk V
  new_chunk vector original_size content_hash = record {
    vector = vector;
    version = 0;
    ref_count = 1;
    original_size = original_size;
    content_hash = content_hash;
  }

  -- `VersionedChunk::update`
  abbrev pub update : VersionedChunk V → V → List ℕ → VersionedChunk V
  update c new_vector new_hash = record {
    vector = new_vector;
    version = wrap64 (c.version + 1);
    ref_count = 1;
    original_size = c.original_size;
    content_hash = new_hash;
  }

  -- `fetch_add` of an `AtomicU32` wraps.
  abbrev pub inc_ref : VersionedChunk V → VersionedChunk V
  inc_ref c = record c { ref_count = (c.ref_count + 1) % 2 ^ 32 }

  -- `fetch_sub` wraps too. The result is the old count less one, stopped at 0.
  abbrev pub dec_ref : VersionedChunk V → ℕ × VersionedChunk V
  dec_ref c = (c.ref_count - 1, record c { ref_count = (c.ref_count + (2 ^ 32 - 1)) % 2 ^ 32 })

  abbrev pub is_unreferenced : VersionedChunk V → Bool
  is_unreferenced c = c.ref_count == 0

pub record ChunkStore {ℓ} (V : Type ℓ) : Type ℓ where
  pub chunks : List (ℕ × VersionedChunk V)
  pub global_version : ℕ
  pub hash_index : List (List ℕ × ℕ)

pub record CodebookStats : Type 0 where
  pub total_chunks : ℕ
  pub unreferenced_chunks : ℕ
  pub total_references : ℕ
  pub total_size_bytes : ℕ
  pub version : ℕ

module _ {ℓ} {V : Type ℓ} where
  abbrev pub new_store : ChunkStore V
  new_store = record { chunks = []; global_version = 0; hash_index = [] }

  unfoldable pub get : ChunkStore V → ℕ → Option (VersionedChunk V × ℕ)
  get s chunk_id = elim (lookup chunk_id s.chunks) [
    | none ↦ none
    | some c ↦ some (c, s.global_version)
  ]

  unfoldable pub find_by_hash : ChunkStore V → List ℕ → Option (ℕ × VersionedChunk V)
  find_by_hash s content_hash = elim (lookup content_hash s.hash_index) [
    | none ↦ none
    | some chunk_id ↦ elim (lookup chunk_id s.chunks) [ none ↦ none | some c ↦ some (chunk_id, c) ]
  ]

  -- Both maps with one chunk more.
  abbrev pub put_chunk : ℕ → VersionedChunk V → ChunkStore V → ChunkStore V
  put_chunk chunk_id c s = record s {
    chunks = put chunk_id c s.chunks;
    hash_index = put c.content_hash chunk_id s.hash_index;
  }

  -- `global_version.fetch_add(1)`
  abbrev pub next_version : ChunkStore V → ChunkStore V
  next_version s = record s { global_version = wrap64 (s.global_version + 1) }

  abbrev mismatch {κ} : {A : Type κ} → ChunkStore V → ℕ → VersionedResult A
  mismatch s expected_version =
      err (record { expected = expected_version; actual = s.global_version })

  unfoldable pub insert : ChunkStore V → ℕ → VersionedChunk V → ℕ → VersionedResult ℕ × ChunkStore V
  insert s chunk_id c expected_version =
      if s.global_version == expected_version
      then (ok (wrap64 (s.global_version + 1)), next_version (put_chunk chunk_id c s))
      else (mismatch s expected_version, s)

  -- The loop of the batch operations.
  unfoldable pub put_chunks : List (ℕ × VersionedChunk V) → ChunkStore V → ChunkStore V
  put_chunks [] s = s
  put_chunks ((chunk_id, c) ∷ updates) s = put_chunks updates (put_chunk chunk_id c s)

  unfoldable pub batch_insert_new :
      ChunkStore V → List (ℕ × VersionedChunk V) → VersionedResult ℕ × ChunkStore V
  batch_insert_new s updates =
      let s' = next_version (put_chunks updates s) in (ok s'.global_version, s')

  unfoldable pub batch_insert :
      ChunkStore V → List (ℕ × VersionedChunk V) → ℕ → VersionedResult ℕ × ChunkStore V
  unfolding batch_insert_new
  batch_insert s updates expected_version =
      if s.global_version == expected_version
      then batch_insert_new s updates
      else (mismatch s expected_version, s)

  -- `chunks.remove(&id)`, and of the index the hash of what was removed.
  unfoldable pub remove_chunk : ℕ → ChunkStore V → ChunkStore V
  remove_chunk chunk_id s = elim (lookup chunk_id s.chunks) [
    | none ↦ s
    | some c ↦ record s {
      chunks = without chunk_id s.chunks;
      hash_index = without c.content_hash s.hash_index;
    }
  ]

  unfoldable pub remove :
      ChunkStore V → ℕ → ℕ → VersionedResult (Option (VersionedChunk V)) × ChunkStore V
  unfolding remove_chunk
  remove s chunk_id expected_version =
      if s.global_version == expected_version
      then (ok (lookup chunk_id s.chunks), next_version (remove_chunk chunk_id s))
      else (mismatch s expected_version, s)

  unfoldable pub unreferenced_ids : List (ℕ × VersionedChunk V) → List ℕ
  unreferenced_ids [] = []
  unreferenced_ids ((chunk_id, c) ∷ m) =
      if is_unreferenced c then chunk_id ∷ unreferenced_ids m else unreferenced_ids m

  unfoldable pub remove_chunks : List ℕ → ChunkStore V → ChunkStore V
  remove_chunks [] s = s
  remove_chunks (chunk_id ∷ ids) s = remove_chunks ids (remove_chunk chunk_id s)

  unfoldable pub gc : ChunkStore V → ℕ → VersionedResult ℕ × ChunkStore V
  gc s expected_version =
      let to_remove = unreferenced_ids s.chunks in
      let s' = remove_chunks to_remove s in
      if s.global_version == expected_version
      then (ok (length to_remove), if ltb 0 (length to_remove) then next_version s' else s')
      else (mismatch s expected_version, s)

  unfoldable pub total_references : List (ℕ × VersionedChunk V) → ℕ
  total_references [] = 0
  total_references ((chunk_id, c) ∷ m) = c.ref_count + total_references m

  unfoldable pub total_size : List (ℕ × VersionedChunk V) → ℕ
  total_size [] = 0
  total_size ((chunk_id, c) ∷ m) = c.original_size + total_size m

  -- The average is left out, a floating-point number.
  unfoldable pub stats : ChunkStore V → CodebookStats
  unfolding total_references total_size unreferenced_ids
  stats s = record {
    total_chunks = length s.chunks;
    unreferenced_chunks = length (unreferenced_ids s.chunks);
    total_references = wrap64 (total_references s.chunks);
    total_size_bytes = wrap64 (total_size s.chunks);
    version = s.global_version;
  }
