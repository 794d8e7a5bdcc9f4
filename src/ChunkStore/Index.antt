-- ===== src/ChunkStore/Index.antt =====
-- The hash index leads only to chunks with that hash.
use embeddenator_fs.Prelude.{
  ℕ, ◌≡◌, ◌≢◌, sym, ◌∙◌, subst, some, List, [], ◌∷◌, true, false, ◌==◌, arith, ==_iff, Bool-cases,
  Option-cases, inl, inr, ltb, length,
}
use embeddenator_fs.Prelude.Bytes.{bytes_eq, bytes_eq_iff}
use embeddenator_fs.Prelude.Assoc.{
  lookup, insert as put, lookup-without, lookup-insert_self, lookup-insert, nat_key, bytes_key,
}
use embeddenator_fs.ChunkStore.{
  VersionedChunk, ChunkStore, insert, remove, remove_chunk, remove_chunks, unreferenced_ids, gc,
  next_version, put_chunk,
}

true_ne_false : true ≢ false
true_ne_false h = cc

module _ {ℓ} {V : Type ℓ} where
  -- What the index finds for a hash is a chunk of the store with that hash.
  unfoldable pub IsIndexed : ChunkStore V → Type ℓ
  IsIndexed s =
      (h : List ℕ) (i : ℕ)
      → lookup h s.hash_index ≡ some i
      → (c : VersionedChunk V) × (lookup i s.chunks ≡ some c) × (c.content_hash ≡ h)

  -- Chunks with other hashes stand under other ids.
  ids_differ :
      (i j : ℕ) (c d : VersionedChunk V) (h : List ℕ) (m : List (ℕ × VersionedChunk V))
      → ((x : VersionedChunk V) → lookup i m ≡ some x → x.content_hash ≡ c.content_hash)
      → lookup j m ≡ some d
      → d.content_hash ≡ h
      → bytes_eq c.content_hash h ≡ false
      → (i == j) ≡ false
  ids_differ i j c d h m same e p q = elim (Bool-cases (i == j)) [
    | inr r ↦ r
    | inl r ↦
        (let at_i : lookup i m ≡ some d =
            subst (λ t. lookup t m ≡ some d) (sym ((==_iff i j).0 r)) e in
          let equal : bytes_eq c.content_hash h ≡ true =
            (bytes_eq_iff c.content_hash h).1 (sym (same d at_i) ∙ p) in
          absurd (true_ne_false (sym equal ∙ q)))
  ]

  put_chunk-IsIndexed :
      (s : ChunkStore V) (i : ℕ) (c : VersionedChunk V)
      → IsIndexed s
      → ((d : VersionedChunk V) → lookup i s.chunks ≡ some d → d.content_hash ≡ c.content_hash)
      → IsIndexed (put_chunk i c s)
  unfolding IsIndexed
  put_chunk-IsIndexed s i c inv same h j e = elim (Bool-cases (bytes_eq c.content_hash h)) [
    | inl p ↦
        (let found : j ≡ i = ground (arith, e, p, lookup-insert c.content_hash h i s.hash_index) in
          (
            c,
            subst (λ t. lookup t (put i c s.chunks) ≡ some c) (sym found)
                (lookup-insert_self i c s.chunks),
            (bytes_eq_iff c.content_hash h).0 p,
          ))
    | inr p ↦
        (let old : lookup h s.hash_index ≡ some j =
            ground (arith, e, p, lookup-insert c.content_hash h i s.hash_index) in
          let (d, at_j, hash) = inv h j old in
          let other : (i == j) ≡ false = ids_differ i j c d h s.chunks same at_j hash p in
          (d, rw (lookup-insert i j c s.chunks, other) at_j, hash))
  ]

  remove_chunk-IsIndexed : (s : ChunkStore V) (i : ℕ) → IsIndexed s → IsIndexed (remove_chunk i s)
  unfolding IsIndexed remove_chunk
  remove_chunk-IsIndexed s i inv = elim (Option-cases (lookup i s.chunks)) [
    | inl e ↦ rw (remove_chunk, e) inv
    | inr (c, e) ↦
        rw (remove_chunk, e)
          (λ h j p. elim (Bool-cases (bytes_eq c.content_hash h)) [
            | inl q ↦ absurd (ground (arith, p, q, lookup-without c.content_hash h s.hash_index))
            | inr q ↦
                (let old : lookup h s.hash_index ≡ some j =
                    ground (arith, p, q, lookup-without c.content_hash h s.hash_index) in
                  let (d, at_j, hash) = inv h j old in
                  let one : (x : VersionedChunk V)
                      → lookup i s.chunks ≡ some x
                      → x.content_hash ≡ c.content_hash =
                    λ x r. cc in
                  let other : (i == j) ≡ false = ids_differ i j c d h s.chunks one at_j hash q in
                  (d, rw (lookup-without i j s.chunks, other) at_j, hash))
          ])
  ]

  remove_chunks-IsIndexed :
      (ids : List ℕ) (s : ChunkStore V) → IsIndexed s → IsIndexed (remove_chunks ids s)
  unfolding remove_chunks
  remove_chunks-IsIndexed [] s inv = inv
  remove_chunks-IsIndexed (i ∷ ids) s inv =
      remove_chunks-IsIndexed ids (remove_chunk i s) (remove_chunk-IsIndexed s i inv)

  next_version-IsIndexed : (s : ChunkStore V) → IsIndexed s → IsIndexed (next_version s)
  unfolding IsIndexed
  next_version-IsIndexed s inv = inv

  -- An insertion at any version keeps the index right when the id is free or holds a chunk with the
  -- hash of the new one.
  pub insert-IsIndexed :
      (s : ChunkStore V) (i v : ℕ) (c : VersionedChunk V)
      → IsIndexed s
      → ((d : VersionedChunk V) → lookup i s.chunks ≡ some d → d.content_hash ≡ c.content_hash)
      → IsIndexed (insert s i c v).1
  unfolding insert
  insert-IsIndexed s i v c inv same = elim (Bool-cases (s.global_version == v)) [
    | inl e ↦
        rw (insert, e)
          (next_version-IsIndexed (put_chunk i c s) (put_chunk-IsIndexed s i c inv same))
    | inr e ↦ rw (insert, e) inv
  ]

  -- A removal and a collection keep the index right, whatever version they expect.
  pub remove-gc-IsIndexed :
      (s : ChunkStore V) (i v : ℕ) → IsIndexed s → IsIndexed (remove s i v).1 × IsIndexed (gc s v).1
  unfolding remove gc
  remove-gc-IsIndexed s i v inv = elim (Bool-cases (s.global_version == v)) [
    | inl e ↦
        (let collected = remove_chunks-IsIndexed (unreferenced_ids s.chunks) s inv in
          rw (remove, gc, e)
            (
              next_version-IsIndexed (remove_chunk i s) (remove_chunk-IsIndexed s i inv),
              elim (Bool-cases (ltb 0 (length (unreferenced_ids s.chunks)))) [
                | inl p ↦
                    rw p (
                      next_version-IsIndexed (remove_chunks (unreferenced_ids s.chunks) s)
                        collected)
                | inr p ↦ rw p collected
              ],
            ))
    | inr e ↦ rw (remove, gc, e) (inv, inv)
  ]
