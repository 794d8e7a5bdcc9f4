-- ===== src/EmbrFs/RoundTrip.antt =====
-- A file that was written is read back.
use embeddenator_fs.Prelude.{
  ℕ, zero, suc, ◌+◌, ◌-◌, ◌≤◌, ◌<◌, ◌≡◌, refl, sym, ap, ◌∙◌, Option, some, List, [], ◌∷◌, ◌++◌,
  append_assoc, append-nil, All, false, ◌==◌, leb_cases, inl, inr, arith, length, take, drop,
  take_all, drop_all, take-append-drop, length-take, length-drop,
}
use embeddenator_fs.Prelude.Assoc.{lookup, lookup-insert, lookup-insert_self, nat_key}
use embeddenator_fs.Correction.{ChunkCorrection, apply}
use embeddenator_fs.ChunkStore.{ChunkStore, VersionedChunk, get, put_chunk, put_chunks}
use embeddenator_fs.VersionedCorrections.{
  VersionedCorrectionStore, get_versioned, put_all_new, put_all_counted, put_counted,
}
use embeddenator_fs.EmbrFs.{
  Codec, EmbrFs, done, default_chunk_size, decode_with, decode_chunk_with_format, is_reversible,
  corrected, prepend, read_chunks,
}
use embeddenator_fs.EmbrFs.Write.{chunks_on}
use embeddenator_fs.EmbrFs.Encoded.{Triple, bytes_of, numbered, Mends}

-- The pieces of `chunks` have at most the size, and together they are the bytes.
pub chunks_on_bounded :
    (fuel : ℕ) (bytes : List ℕ)
    → All (λ c. length c ≤ default_chunk_size) (chunks_on fuel default_chunk_size bytes)
unfolding chunks_on
chunks_on_bounded zero bytes = tt
chunks_on_bounded (suc fuel) [] = tt
chunks_on_bounded (suc fuel) (b ∷ bytes) = (
  omega (arith, length-take default_chunk_size (b ∷ bytes)),
  chunks_on_bounded fuel (drop default_chunk_size (b ∷ bytes)),
)

module _ {ℓ} {V E : Type ℓ} (codec : Codec V E) where
  -- The chunks of the triples stand in the store under the ids from `n` on.
  abbrev pub ChunksAt : ℕ → List (Triple codec) → List (ℕ × VersionedChunk V) → Type ℓ
  ChunksAt n [] m = Unit
  ChunksAt n ((bytes, chunk, correction) ∷ ts) m = (lookup n m ≡ some chunk) × ChunksAt (n + 1) ts m

  abbrev pub CorrectionsAt : ℕ → List (Triple codec) → List (ℕ × ChunkCorrection) → Type 0
  CorrectionsAt n [] m = Unit
  CorrectionsAt n ((bytes, chunk, correction) ∷ ts) m =
      (lookup n m ≡ some correction) × CorrectionsAt (n + 1) ts m

  put_chunks_before :
      (ts : List (Triple codec)) (n i : ℕ) (s : ChunkStore V)
      → i < n
      → lookup i (put_chunks (numbered codec n ts).chunk_updates s).chunks ≡ lookup i s.chunks
  unfolding put_chunks
  put_chunks_before [] n i s h = refl
  put_chunks_before ((bytes, chunk, correction) ∷ ts) n i s h =
      let other : (n == i) ≡ false = ground (arith, h) in
      put_chunks_before ts (n + 1) i (put_chunk n chunk s) (omega (arith, h))
      ∙ lookup-insert n i chunk s.chunks
      ∙ rw (other) refl

  pub put_chunks_at :
      (ts : List (Triple codec)) (n : ℕ) (s : ChunkStore V)
      → ChunksAt n ts (put_chunks (numbered codec n ts).chunk_updates s).chunks
  unfolding put_chunks
  put_chunks_at [] n s = tt
  put_chunks_at ((bytes, chunk, correction) ∷ ts) n s = (
    put_chunks_before ts (n + 1) n (put_chunk n chunk s) (omega arith)
        ∙ lookup-insert_self n chunk s.chunks,
    put_chunks_at ts (n + 1) (put_chunk n chunk s),
  )

  put_all_new_before :
      (ts : List (Triple codec)) (n i : ℕ) (s : VersionedCorrectionStore)
      → i < n
      → lookup i (put_all_new (numbered codec n ts).corrections_to_add s).corrections
        ≡ lookup i s.corrections
  unfolding put_all_new
  put_all_new_before [] n i s h = refl
  put_all_new_before ((bytes, chunk, correction) ∷ ts) n i s h =
      let other : (n == i) ≡ false = ground (arith, h) in
      put_all_new_before ts (n + 1) i _ (omega (arith, h))
      ∙ lookup-insert n i correction s.corrections
      ∙ rw (other) refl

  pub put_all_new_at :
      (ts : List (Triple codec)) (n : ℕ) (s : VersionedCorrectionStore)
      → CorrectionsAt n ts (put_all_new (numbered codec n ts).corrections_to_add s).corrections
  unfolding put_all_new
  put_all_new_at [] n s = tt
  put_all_new_at ((bytes, chunk, correction) ∷ ts) n s = (
    put_all_new_before ts (n + 1) n _ (omega arith) ∙ lookup-insert_self n correction s.corrections,
    put_all_new_at ts (n + 1) _,
  )

  put_all_counted_before :
      (ts : List (Triple codec)) (n i : ℕ) (s : VersionedCorrectionStore)
      → i < n
      → lookup i (put_all_counted (numbered codec n ts).corrections_to_add s).corrections
        ≡ lookup i s.corrections
  unfolding put_all_counted put_counted
  put_all_counted_before [] n i s h = refl
  put_all_counted_before ((bytes, chunk, correction) ∷ ts) n i s h =
      let other : (n == i) ≡ false = ground (arith, h) in
      put_all_counted_before ts (n + 1) i (put_counted n correction s) (omega (arith, h))
      ∙ lookup-insert n i correction s.corrections
      ∙ rw (other) refl

  pub put_all_counted_at :
      (ts : List (Triple codec)) (n : ℕ) (s : VersionedCorrectionStore)
      → CorrectionsAt n ts (put_all_counted (numbered codec n ts).corrections_to_add s).corrections
  unfolding put_all_counted put_counted
  put_all_counted_at [] n s = tt
  put_all_counted_at ((bytes, chunk, correction) ∷ ts) n s = (
    put_all_counted_before ts (n + 1) n (put_counted n correction s) (omega arith)
        ∙ lookup-insert_self n correction s.corrections,
    put_all_counted_at ts (n + 1) (put_counted n correction s),
  )

  get_at :
      (s : ChunkStore V) (id : ℕ) (chunk : VersionedChunk V)
      → lookup id s.chunks ≡ some chunk
      → get s id ≡ some (chunk, s.global_version)
  unfolding get
  get_at s id chunk h = rw (get, h) refl

  pub corrected_at :
      (fs : EmbrFs V E) (id : ℕ) (c : ChunkCorrection) (decoded : List ℕ)
      → lookup id fs.corrections.corrections ≡ some c
      → corrected fs id decoded ≡ apply c decoded
  unfolding corrected get_versioned
  corrected_at fs id c decoded h = rw (corrected, get_versioned, h) refl

  -- The read of one chunk that is stored, and of those behind it.
  read_step :
      (fs : EmbrFs V E) (format : Option ℕ) (path : List ℕ) (id : ℕ) (ids : List ℕ)
      (chunk : VersionedChunk V) (c : ChunkCorrection) (rest : List ℕ)
      → lookup id fs.chunk_store.chunks ≡ some chunk
      → lookup id fs.corrections.corrections ≡ some c
      → read_chunks codec fs format path ids ≡ done rest
      → read_chunks codec fs format path (id ∷ ids)
        ≡ done (
            apply c (
              decode_with codec
                (is_reversible format)
                fs.reversible_encoder
                chunk.vector
                path
                default_chunk_size)
            ++ rest)
  unfolding read_chunks prepend decode_chunk_with_format
  read_step fs format path id ids chunk c rest at_chunk at_correction others =
      rw
        (
          read_chunks,
          get_at fs.chunk_store id chunk at_chunk,
          others,
          corrected_at fs id c _ at_correction,
        )
        refl

  no_more : (xs : List ℕ) → length xs ≤ 0 → xs ≡ []
  no_more [] h = refl
  no_more (x ∷ xs) h = absurd (omega arith)

  -- A piece with what lies behind it, and the bytes behind the piece with what lies behind them.
  joined_pieces :
      (bytes piece extra more : List ℕ)
      → piece ≡ take default_chunk_size bytes
      → length extra ≤ default_chunk_size - length piece
      → (more' : List ℕ) × ((piece ++ extra) ++ (drop default_chunk_size bytes ++ more)
          ≡ bytes ++ more')
  joined_pieces bytes piece extra more is_piece few =
      elim (leb_cases default_chunk_size (length bytes)) [
        | inl (_, full) ↦
            let size : length piece ≡ default_chunk_size =
              ap length is_piece ∙ omega (arith, length-take default_chunk_size bytes, full) in
            let nothing : extra ≡ [] = no_more extra (omega (arith, few, size)) in
            (
              more,
              ap (λ x. (piece ++ x) ++ (drop default_chunk_size bytes ++ more)) nothing
                  ∙ ap (λ x. x ++ (drop default_chunk_size bytes ++ more))
                      (append-nil piece ∙ is_piece)
                  ∙ sym (
                      append_assoc (take default_chunk_size bytes) (drop default_chunk_size bytes)
                        more)
                  ∙ ap (λ x. x ++ more) (take-append-drop default_chunk_size bytes),
            )
        | inr (_, short) ↦ (
          extra ++ more,
          ap (λ x. (piece ++ extra) ++ (x ++ more))
                (drop_all default_chunk_size bytes (omega (arith, short)))
              ∙ append_assoc piece extra more
              ∙ ap (λ x. x ++ (extra ++ more))
                  (is_piece ∙ take_all default_chunk_size bytes (omega (arith, short))),
        )
      ]

  read_more :
      (fs : EmbrFs V E) (format : Option ℕ) (path : List ℕ) (id : ℕ) (ids : List ℕ)
      (chunk : VersionedChunk V) (c : ChunkCorrection) (rest mended bytes : List ℕ)
      → lookup id fs.chunk_store.chunks ≡ some chunk
      → lookup id fs.corrections.corrections ≡ some c
      → read_chunks codec fs format path ids ≡ done rest
      → apply c (
          decode_with codec
            (is_reversible format)
            fs.reversible_encoder
            chunk.vector
            path
            default_chunk_size)
        ≡ mended
      → mended ++ rest ≡ bytes
      → read_chunks codec fs format path (id ∷ ids) ≡ done bytes
  read_more fs format path id ids chunk c rest mended bytes at_chunk at_correction others mends
        whole =
      read_step fs format path id ids chunk c rest at_chunk at_correction others
      ∙ ap done (ap (λ x. x ++ rest) mends ∙ whole)

  -- The chunks of `bytes` are read as the bytes, with something behind them at most.
  pub read_chunks_lem :
      (fuel : ℕ) (bytes : List ℕ) (ts : List (Triple codec)) (n : ℕ) (fs : EmbrFs V E)
      (format : Option ℕ) (path : List ℕ)
      → length bytes ≤ fuel
      → bytes_of codec ts ≡ chunks_on fuel default_chunk_size bytes
      → ChunksAt n ts fs.chunk_store.chunks
      → CorrectionsAt n ts fs.corrections.corrections
      → All (Mends codec (is_reversible format) fs.reversible_encoder path) ts
      → (more : List ℕ) × (read_chunks codec fs format path (numbered codec n ts).chunk_ids
          ≡ done (bytes ++ more))
  unfolding chunks_on read_chunks
  read_chunks_lem zero [] [] n fs format path enough pieces chunks corrections all = ([], refl)
  read_chunks_lem zero [] (t ∷ ts) n fs format path enough pieces chunks corrections all = absurd cc
  read_chunks_lem zero (b ∷ bytes) ts n fs format path enough pieces chunks corrections all =
      absurd (omega (arith, enough))
  read_chunks_lem (suc fuel) [] [] n fs format path enough pieces chunks corrections all =
      ([], refl)
  read_chunks_lem (suc fuel) [] (t ∷ ts) n fs format path enough pieces chunks corrections all =
      absurd cc
  read_chunks_lem (suc fuel) (b ∷ bytes) [] n fs format path enough pieces chunks corrections all =
      absurd cc
  read_chunks_lem (suc fuel) (b ∷ bytes) ((piece, chunk, c) ∷ ts) n fs format path enough pieces
        (at_chunk, chunks) (at_correction, corrections) ((extra, mends, few), all) =
      let is_piece : piece ≡ take default_chunk_size (b ∷ bytes) = cc in
      let others : bytes_of codec ts
          ≡ chunks_on fuel default_chunk_size (drop default_chunk_size (b ∷ bytes)) =
        cc in
      let (more, rest) =
        read_chunks_lem fuel (drop default_chunk_size (b ∷ bytes)) ts (n + 1) fs format path
          (omega (arith, enough, length-drop default_chunk_size (b ∷ bytes))) others chunks
          corrections all in
      let (more', whole) = joined_pieces (b ∷ bytes) piece extra more is_piece few in
      (
        more',
        read_more fs format path n (numbered codec (n + 1) ts).chunk_ids chunk c
            (drop default_chunk_size (b ∷ bytes) ++ more) (piece ++ extra) ((b ∷ bytes) ++ more')
            at_chunk at_correction rest mends whole,
      )
