-- ===== src/Streaming/Ingester/Laws.antt =====
-- The chunks of an ingester do not depend on how its input arrives.
use embeddenator_fs.Prelude.{ℕ, ◌+◌, ◌<◌, ◌≡◌, refl, ap, ◌∙◌, List, [], ◌∷◌, ◌++◌, arith, length}
use embeddenator_fs.Prelude.Run.{Run, ok, panic, ◌>>=◌}
use embeddenator_fs.Types.{wrap64}
use embeddenator_fs.EmbrFs.{Nothing, Codec, FsResult, done, failed}
use embeddenator_fs.Streaming.Buffer.{add_slice, process_rest}
use embeddenator_fs.Streaming.Slices.{chunk_list, concat, each, feed, feed_lem, then_feed}
use embeddenator_fs.Streaming.Ingester.{
  Made, StreamingIngester, process_chunk, ingest_bytes, after_slice, process_remaining,
}

module _ {ℓ} {V E : Type ℓ} (codec : Codec V E) where
  -- Calls of `ingest_bytes` one after the other, and the rest that `finalize` processes.
  unfoldable pub ingest_all :
      StreamingIngester V E → List (List ℕ) → Run (FsResult Nothing × StreamingIngester V E)
  unfolding ingest_bytes after_slice process_remaining
  ingest_all ing [] = process_remaining codec ing
  ingest_all ing (s ∷ slices) = do
    r ← ingest_bytes codec ing s
    after_slice codec (λ ing1. ingest_all ing1 slices) r

  abbrev pub without_buffer :
      FsResult Nothing × StreamingIngester V E → Run (FsResult Nothing × Made V E)
  without_buffer (answer, ing) = ok (answer, ing.made)

  rest_made :
      (ing : StreamingIngester V E) (r : Run (FsResult Nothing × Made V E))
      → ((r >>= λ (answer, made). ok (answer, record ing { buffer = []; made = made }))
          >>= without_buffer)
        ≡ r
  rest_made ing panic = refl
  rest_made ing (ok (answer, made)) = refl

  -- One slice, and what comes after it.
  slice_made :
      (ing : StreamingIngester V E) (total : ℕ)
      (next : StreamingIngester V E → Run (FsResult Nothing × StreamingIngester V E))
      (next' : List ℕ → Made V E → Run (FsResult Nothing × Made V E))
      (r : Run (FsResult Nothing × List ℕ × Made V E))
      → ((rest : List ℕ) (made : Made V E)
          → (next (record ing { total_bytes = total; buffer = rest; made = made })
              >>= without_buffer)
            ≡ next' rest made)
      → (((r >>= λ (answer, rest, made).
              ok (answer, record ing { total_bytes = total; buffer = rest; made = made }))
            >>= after_slice codec next)
          >>= without_buffer)
        ≡ (r >>= then_feed next')
  unfolding after_slice then_feed
  slice_made ing total next next' panic h = refl
  slice_made ing total next next' (ok (done u, rest, made)) h = h rest made
  slice_made ing total next next' (ok (failed e, rest, made)) h = refl

  ingest_all-feed :
      (slices : List (List ℕ)) (ing : StreamingIngester V E)
      → (ingest_all ing slices >>= without_buffer)
        ≡ feed
            (process_chunk codec ing.path ing.compression)
            ing.chunk_size
            ing.buffer
            slices
            ing.made
  unfolding ingest_all ingest_bytes process_remaining feed
  ingest_all-feed [] ing = rest_made ing (
      process_rest (process_chunk codec ing.path ing.compression) ing.chunk_size ing.buffer
        ing.made)
  ingest_all-feed (s ∷ slices) ing =
      slice_made ing (wrap64 (ing.total_bytes + length s)) (λ ing1. ingest_all ing1 slices)
        (λ rest made1.
          feed (process_chunk codec ing.path ing.compression) ing.chunk_size rest slices made1)
        (add_slice (process_chunk codec ing.path ing.compression) ing.chunk_size ing.buffer s
          ing.made)
        (λ rest made1. ingest_all-feed slices (record ing {
          total_bytes = wrap64 (ing.total_bytes + length s);
          buffer = rest;
          made = made1;
        }))

  -- However its input is sliced, an ingester with an empty buffer and a positive chunk size does the
  -- same work as on the pieces into which the whole input is cut by that size: it processes the same
  -- chunks in the same order, stops at the same one with the same error where one fails, panics where
  -- that does, and leaves the same file system, pending chunks and ids.
  pub ingest_all-each :
      (ing : StreamingIngester V E) (slices : List (List ℕ))
      → ing.buffer ≡ []
      → 0 < ing.chunk_size
      → (ingest_all ing slices >>= without_buffer)
        ≡ each
            (process_chunk codec ing.path ing.compression)
            ing.chunk_size
            (chunk_list ing.chunk_size (concat slices))
            ing.made
  ingest_all-each ing slices empty pos =
      ingest_all-feed slices ing
      ∙ feed_lem (process_chunk codec ing.path ing.compression) ing.chunk_size slices ing.buffer
          ing.made pos (omega (arith, ap length empty))
      ∙ ap
          (λ b.
            each (process_chunk codec ing.path ing.compression) ing.chunk_size
              (chunk_list ing.chunk_size (b ++ concat slices)) ing.made)
          empty
