-- ===== src/ChunkStore/Versions.antt =====
-- The global version decides between writers that read the same state.
use embeddenator_fs.Prelude.{ℕ, ◌+◌, ◌≡◌, ◌≢◌, refl, some, false, ◌==◌, arith, ==_refl}
use embeddenator_fs.Prelude.Bytes.{IsU64}
use embeddenator_fs.Prelude.Assoc.{lookup, lookup-insert_self, lookup-insert, nat_key, bytes_key}
use embeddenator_fs.Types.{ok, err, wrap64}
use embeddenator_fs.ChunkStore.{
  VersionedChunk, ChunkStore, insert, remove, get, find_by_hash, next_version, put_chunk,
}

next_version_ne : (v : ℕ) → IsU64 v → (wrap64 (v + 1) == v) ≡ false
next_version_ne v h = ground arith

module _ {ℓ} {V : Type ℓ} where
  -- Of two writers that read the same version only the first succeeds: an insertion that succeeds
  -- makes every insertion and removal that expects the same version fail with both versions in the
  -- error and leave the store as it is. Versions are 64-bit words.
  pub insert-insert_conflict :
      (s : ChunkStore V) (i j : ℕ) (c d : VersionedChunk V)
      → IsU64 s.global_version
      → (insert s i c s.global_version).0 ≡ ok (wrap64 (s.global_version + 1))
        × (insert (insert s i c s.global_version).1 j d s.global_version ≡ (
          err (record { expected = s.global_version; actual = wrap64 (s.global_version + 1) }),
          (insert s i c s.global_version).1,
        ))
        × (remove (insert s i c s.global_version).1 j s.global_version ≡ (
          err (record { expected = s.global_version; actual = wrap64 (s.global_version + 1) }),
          (insert s i c s.global_version).1,
        ))
  unfolding insert remove
  insert-insert_conflict s i j c d h =
      rw (==_refl s.global_version, next_version_ne s.global_version h) (refl, refl, refl)

  insert_current :
      (s : ChunkStore V) (i : ℕ) (c : VersionedChunk V)
      → insert s i c s.global_version
        ≡ (ok (wrap64 (s.global_version + 1)), next_version (put_chunk i c s))
  unfolding insert
  insert_current s i c = rw (==_refl s.global_version) refl

  get-put_chunk :
      (s : ChunkStore V) (i : ℕ) (c : VersionedChunk V)
      → (get (next_version (put_chunk i c s)) i ≡ some (c, wrap64 (s.global_version + 1)))
        × (find_by_hash (next_version (put_chunk i c s)) c.content_hash ≡ some (i, c))
  unfolding get find_by_hash
  get-put_chunk s i c =
      rw
        (
          get,
          find_by_hash,
          lookup-insert_self c.content_hash i s.hash_index,
          lookup-insert_self i c s.chunks,
        )
        (refl, refl)

  -- A read after a successful insertion gives the chunk and the new version, a read of another id
  -- gives the chunk that the store had, and the hash of the chunk leads to it.
  pub get-insert :
      (s : ChunkStore V) (i j : ℕ) (c : VersionedChunk V)
      → (i ≢ j)
      → (get (insert s i c s.global_version).1 i ≡ some (c, wrap64 (s.global_version + 1)))
        × (find_by_hash (insert s i c s.global_version).1 c.content_hash ≡ some (i, c))
        × (lookup j (insert s i c s.global_version).1.chunks ≡ lookup j s.chunks)
  get-insert s i j c h =
      let other : (i == j) ≡ false = ground (arith, h) in
      let (here, by_hash) = get-put_chunk s i c in
      rw (insert_current s i c) (here, by_hash, rw (lookup-insert i j c s.chunks, other) refl)
