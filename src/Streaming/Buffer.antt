-- ===== src/Streaming/Buffer.antt =====
-- The buffering loop of `ingest_bytes`, and the rest of the buffer that `finalize` processes first, with
-- `step` for the work on one chunk.
use embeddenator_fs.Prelude.{
  ℕ, zero, suc, List, [], ◌∷◌, ◌++◌, leb, if◌then◌else◌, length, take, drop,
}
use embeddenator_fs.Prelude.Run.{Run, ok, ◌>>=◌}
use embeddenator_fs.EmbrFs.{Nothing, FsResult, done, failed}

module _ {ℓ} {M : Type ℓ} where
  -- What goes on where a step succeeded.
  unfoldable pub go_on :
      (M → Run (FsResult Nothing × List ℕ × M))
      → List ℕ
      → FsResult Nothing × M
      → Run (FsResult Nothing × List ℕ × M)
  go_on next rest (done u, made) = next made
  go_on next rest (failed e, made) = ok (failed e, rest, made)

  module _ (step : M → List ℕ → Run (FsResult Nothing × M)) (size : ℕ) where
    -- `while self.buffer.len() >= self.chunk_size`, on fuel: every round takes `size` bytes.
    unfoldable pub drain : ℕ → List ℕ → M → Run (FsResult Nothing × List ℕ × M)
    unfolding go_on
    drain zero buffer made = ok (done tt, buffer, made)
    drain (suc fuel) buffer made =
        if leb size (length buffer)
        then (do
          r ← step made (take size buffer)
          go_on (drain fuel (drop size buffer)) (drop size buffer) r)
        else ok (done tt, buffer, made)

    -- A slice goes behind what is buffered.
    unfoldable pub add_slice : List ℕ → List ℕ → M → Run (FsResult Nothing × List ℕ × M)
    unfolding drain
    add_slice buffer bytes made = drain (length (buffer ++ bytes)) (buffer ++ bytes) made

    unfoldable pub process_rest : List ℕ → M → Run (FsResult Nothing × M)
    process_rest [] made = ok (done tt, made)
    process_rest (b ∷ buffer) made = step made (b ∷ buffer)
