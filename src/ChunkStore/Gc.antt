-- ===== src/ChunkStore/Gc.antt =====
-- Garbage collection removes exactly the chunks without references.
use embeddenator_fs.Prelude.{
  ℕ, ◌≡◌, refl, ◌∙◌, Option, none, some, List, [], ◌∷◌, Bool, false, ◌==◌, ◌||◌, if◌then◌else◌,
  arith, ==_refl, ==_iff, Bool-cases, Option-cases, inl, inr, ltb, length,
}
use embeddenator_fs.Prelude.Assoc.{lookup, lookup-without, IsMap, nat_key, bytes_key}
use embeddenator_fs.ChunkStore.{
  VersionedChunk, ChunkStore, is_unreferenced, remove_chunk, remove_chunks, unreferenced_ids, gc,
}

mem : ℕ → List ℕ → Bool
mem i [] = false
mem i (j ∷ js) = (j == i) || mem i js

module _ {ℓ} {V : Type ℓ} where
  -- What is left of a chunk that a lookup found.
  unfoldable pub referenced : Option (VersionedChunk V) → Option (VersionedChunk V)
  referenced none = none
  referenced (some c) = if is_unreferenced c then none else some c

  lookup-remove_chunk :
      (i j : ℕ) (s : ChunkStore V)
      → lookup j (remove_chunk i s).chunks ≡ (if i == j then none else lookup j s.chunks)
  unfolding remove_chunk
  lookup-remove_chunk i j s = elim (Option-cases (lookup i s.chunks)) [
    | inl e ↦ rw (remove_chunk, e) (ground (arith, e, ==_iff i j))
    | inr (c, e) ↦ rw (remove_chunk, e) (lookup-without i j s.chunks)
  ]

  lookup-remove_chunks :
      (ids : List ℕ) (j : ℕ) (s : ChunkStore V)
      → lookup j (remove_chunks ids s).chunks ≡ (if mem j ids then none else lookup j s.chunks)
  unfolding remove_chunks mem
  lookup-remove_chunks [] j s = refl
  lookup-remove_chunks (i ∷ ids) j s =
      lookup-remove_chunks ids j (remove_chunk i s) ∙ rw (lookup-remove_chunk i j s) (ground arith)

  absent-mem :
      (j : ℕ) (m : List (ℕ × VersionedChunk V))
      → lookup j m ≡ none
      → mem j (unreferenced_ids m) ≡ false
  unfolding mem unreferenced_ids lookup
  absent-mem j [] h = refl
  absent-mem j ((i, c) ∷ m) h = ground (arith, absent-mem j m)

  lookup-unreferenced_ids :
      (j : ℕ) (m : List (ℕ × VersionedChunk V))
      → IsMap m
      → (if mem j (unreferenced_ids m) then none else lookup j m) ≡ referenced (lookup j m)
  unfolding mem unreferenced_ids lookup referenced
  lookup-unreferenced_ids j [] h = refl
  lookup-unreferenced_ids j ((i, c) ∷ m) h =
      ground (arith, lookup-unreferenced_ids j m h.1, absent-mem j m, ==_iff i j)

  -- A collection at the current version of a store whose ids are distinct leaves under every id
  -- what is referenced of the chunk that was there.
  pub lookup-gc :
      (s : ChunkStore V) (j : ℕ)
      → IsMap s.chunks
      → lookup j (gc s s.global_version).1.chunks ≡ referenced (lookup j s.chunks)
  unfolding gc
  lookup-gc s j h =
      rw (==_refl s.global_version)
        (elim (Bool-cases (ltb 0 (length (unreferenced_ids s.chunks)))) [
          | inl e ↦ rw e (
              lookup-remove_chunks (unreferenced_ids s.chunks) j s
              ∙ lookup-unreferenced_ids j s.chunks h)
          | inr e ↦ rw e (
              lookup-remove_chunks (unreferenced_ids s.chunks) j s
              ∙ lookup-unreferenced_ids j s.chunks h)
        ])
