-- ===== src/ChunkStore/Runs.antt =====
-- Runs of the theorems on a store with one chunk.
use embeddenator_fs.Prelude.{ℕ, ◌+◌, ◌≡◌, ◌≢◌, refl, some, [], ◌∷◌, arith}
use embeddenator_fs.Prelude.Assoc.{lookup, IsMap, nat_key, bytes_key}
use embeddenator_fs.Types.{wrap64, ok, err}
use embeddenator_fs.ChunkStore.{
  VersionedChunk, ChunkStore, new_chunk, new_store, insert, remove, gc,
}
use embeddenator_fs.ChunkStore.Versions.{insert-insert_conflict}
use embeddenator_fs.ChunkStore.Index.{IsIndexed, insert-IsIndexed, remove-gc-IsIndexed}
use embeddenator_fs.ChunkStore.Gc.{referenced, lookup-gc}

abbrev chunk_a : VersionedChunk ℕ
chunk_a = new_chunk 5 100 (1 ∷ [])

abbrev chunk_b : VersionedChunk ℕ
chunk_b = record (new_chunk 6 80 (2 ∷ [])) { ref_count = 0 }

abbrev one_chunk : ChunkStore ℕ
one_chunk = record { chunks = (4, chunk_b) ∷ []; global_version = 3; hash_index = (2 ∷ [], 4) ∷ [] }

insert-insert_conflict_example :
    (insert one_chunk 5 chunk_a one_chunk.global_version).0
      ≡ ok (wrap64 (one_chunk.global_version + 1))
    × (insert
          (insert one_chunk 5 chunk_a one_chunk.global_version).1
          6
          chunk_a
          one_chunk.global_version
        ≡ (
          err (record {
            expected = one_chunk.global_version;
            actual = wrap64 (one_chunk.global_version + 1);
          }),
          (insert one_chunk 5 chunk_a one_chunk.global_version).1,
        ))
    × (remove (insert one_chunk 5 chunk_a one_chunk.global_version).1 6 one_chunk.global_version ≡ (
      err (record {
        expected = one_chunk.global_version;
        actual = wrap64 (one_chunk.global_version + 1);
      }),
      (insert one_chunk 5 chunk_a one_chunk.global_version).1,
    ))
insert-insert_conflict_example = insert-insert_conflict one_chunk 5 6 chunk_a chunk_a (omega arith)

five_ne_four : ◌≢◌ {A = ℕ} 5 4
five_ne_four h = omega (arith, h)

new_store-IsIndexed : IsIndexed {V = ℕ} new_store
unfolding IsIndexed lookup
new_store-IsIndexed h i e = cc

free :
    (d : VersionedChunk ℕ)
    → lookup 5 (new_store {V = ℕ}).chunks ≡ some d
    → d.content_hash ≡ chunk_a.content_hash
unfolding lookup
free d e = cc

insert-IsIndexed_example : IsIndexed (insert new_store 5 chunk_a 0).1
insert-IsIndexed_example = insert-IsIndexed new_store 5 0 chunk_a new_store-IsIndexed free

put_one : IsIndexed (insert new_store 5 chunk_a 0).1
put_one = insert-IsIndexed new_store 5 0 chunk_a new_store-IsIndexed free

remove-gc-IsIndexed_example :
    IsIndexed (remove (insert new_store 5 chunk_a 0).1 5 1).1
    × IsIndexed (gc (insert new_store 5 chunk_a 0).1 1).1
remove-gc-IsIndexed_example = remove-gc-IsIndexed (insert new_store 5 chunk_a 0).1 5 1 put_one

distinct : IsMap one_chunk.chunks
unfolding lookup
distinct = (refl, tt)

lookup-gc_example :
    lookup 4 (gc one_chunk one_chunk.global_version).1.chunks
    ≡ referenced (lookup 4 one_chunk.chunks)
lookup-gc_example = lookup-gc one_chunk 4 distinct
