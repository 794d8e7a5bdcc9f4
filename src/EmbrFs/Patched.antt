-- ===== src/EmbrFs/Patched.antt =====
-- What a chunk reads as after the application of a delta has stored it again.
use embeddenator_fs.Prelude.{
  ℕ, ◌≡◌, refl, sym, ap, ◌∙◌, Option, some, List, Bool, true, false, if◌then◌else◌, ==_refl,
  Bool-cases, inl, inr, length,
}
use embeddenator_fs.Prelude.Run.{Run, ok}
use embeddenator_fs.Prelude.Assoc.{nat_key, lookup, lookup-insert_self}
use embeddenator_fs.Correction.{
  CorrectionType, none as no_correction, bit_flips, trit_flips, block_replace, verbatim,
  ChunkCorrection, apply, apply_correction, new_correction, compute_hash, compute_data_parity,
  needs_correction, is_correction,
}
use embeddenator_fs.Correction.Strategy.{apply-compute_correction}
use embeddenator_fs.ChunkStore.{
  VersionedChunk, new_chunk, get, put_chunk, insert as insert_chunk, next_version as next_store,
}
use embeddenator_fs.VersionedCorrections.{
  get_versioned, put_counted, update_versioned, next_version as next_corrections,
}
use embeddenator_fs.EmbrFs.{
  Codec, EmbrFs, done, is_reversible, corrected, decode_with, encode_with, encode_chunk,
  decode_chunk, decode_chunk_with_format,
}
use embeddenator_fs.EmbrFs.RoundTrip.{corrected_at}
use embeddenator_fs.Manifest.{Manifest}
use embeddenator_fs.EmbrFs.Patch.{store_chunk, keep_correction, store_bytes}
use embeddenator_fs.Streaming.Decoder.{chunk_bytes}

true_ne_false : true ≡ false → ⊥
true_ne_false h = cc

module _ {ℓ} {V E : Type ℓ} (codec : Codec V E) where
  stored_chunk :
      (fs : EmbrFs V E) (id : ℕ) (chunk : VersionedChunk V)
      → store_chunk codec fs id chunk
        ≡ (done tt, record fs { chunk_store = next_store (put_chunk id chunk fs.chunk_store) })
  unfolding store_chunk insert_chunk
  stored_chunk fs id chunk =
      rw (store_chunk, insert_chunk, ==_refl fs.chunk_store.global_version) refl

  kept_correction :
      (fs : EmbrFs V E) (id : ℕ) (c : ChunkCorrection)
      → needs_correction c ≡ true
      → keep_correction codec id c tt fs
        ≡ ok (
          done tt,
          record fs { corrections = next_corrections (put_counted id c fs.corrections) },
        )
  unfolding keep_correction update_versioned
  kept_correction fs id c needed =
      rw (keep_correction, needed, update_versioned, ==_refl fs.corrections.version) refl

  skipped_correction :
      (fs : EmbrFs V E) (id : ℕ) (c : ChunkCorrection)
      → needs_correction c ≡ false
      → keep_correction codec id c tt fs ≡ ok (done tt, fs)
  unfolding keep_correction
  skipped_correction fs id c unneeded = rw (keep_correction, unneeded) refl

  -- The read of a chunk that stands in the store.
  chunk_bytes_at :
      (fs : EmbrFs V E) (path : List ℕ) (format : Option ℕ) (id : ℕ) (chunk : VersionedChunk V)
      → lookup id fs.chunk_store.chunks ≡ some chunk
      → chunk_bytes codec fs path format id
        ≡ done (
            corrected fs id (
              decode_with codec
                (is_reversible format)
                fs.reversible_encoder
                chunk.vector
                path
                chunk.original_size))
  unfolding chunk_bytes get decode_chunk_with_format
  chunk_bytes_at fs path format id chunk there = rw (chunk_bytes, get, there) refl

  unneeded-apply :
      (c : CorrectionType) (bytes : List ℕ)
      → is_correction c ≡ false
      → apply_correction c bytes ≡ bytes
  unfolding is_correction apply_correction
  unneeded-apply no_correction bytes h = refl
  unneeded-apply (bit_flips fs) bytes h = absurd (true_ne_false h)
  unneeded-apply (trit_flips fs) bytes h = absurd (true_ne_false h)
  unneeded-apply (block_replace n fs) bytes h = absurd (true_ne_false h)
  unneeded-apply (verbatim fs) bytes h = absurd (true_ne_false h)

  -- The decoding that the correction of the bytes is made for.
  abbrev pub fresh_decoding : EmbrFs V E → List ℕ → List ℕ → List ℕ
  fresh_decoding fs path bytes =
      let r = encode_with codec fs.holographic_mode fs.reversible_encoder bytes path in
      decode_with codec fs.holographic_mode r.1 r.0 path (length bytes)

  -- The chunk that is stored, and the state with it.
  abbrev chunk_of : EmbrFs V E → List ℕ → List ℕ → VersionedChunk V
  chunk_of fs path bytes =
      new_chunk (encode_with codec fs.holographic_mode fs.reversible_encoder bytes path).0
        (length bytes) (compute_hash codec.sha256 bytes)

  abbrev with_chunk : EmbrFs V E → List ℕ → ℕ → List ℕ → EmbrFs V E
  with_chunk fs path id bytes = record fs {
    reversible_encoder = (encode_with codec fs.holographic_mode fs.reversible_encoder bytes path).1;
    chunk_store = next_store (put_chunk id (chunk_of fs path bytes) fs.chunk_store);
  }

  store_bytes_made :
      (fs : EmbrFs V E) (path : List ℕ) (id : ℕ) (bytes : List ℕ) (c : ChunkCorrection)
      → new_correction codec.sha256 id bytes (fresh_decoding fs path bytes) ≡ ok c
      → store_bytes codec fs path id bytes
        ≡ keep_correction codec id c tt (with_chunk fs path id bytes)
  unfolding store_bytes encode_chunk decode_chunk
  store_bytes_made fs path id bytes c made =
      let fs1 : EmbrFs V E = record fs {
        reversible_encoder =
            (encode_with codec fs.holographic_mode fs.reversible_encoder bytes path).1;
      } in
      rw (store_bytes, made, stored_chunk fs1 id (chunk_of fs path bytes)) refl

  -- What a read makes of the bytes of a chunk, where its correction was stored or not.
  abbrev pub read_as : EmbrFs V E → ℕ → List ℕ → ChunkCorrection → List ℕ
  read_as fs id bytes c = if needs_correction c then bytes else corrected fs id bytes

  -- What is known of the state behind a chunk that was stored again.
  abbrev pub StoredAgain : EmbrFs V E → List ℕ → ℕ → List ℕ → Option ℕ → Type ℓ
  StoredAgain fs path id bytes format =
      (c : ChunkCorrection) × (after : EmbrFs V E) × (new_correction codec.sha256 id bytes
          (fresh_decoding fs path bytes)
        ≡ ok c)
      × (store_bytes codec fs path id bytes ≡ ok (done tt, after))
      × (chunk_bytes codec after path format id ≡ done (read_as fs id bytes c))
      × (after.manifest ≡ fs.manifest)
      × (after.global_version ≡ fs.global_version)

  pub store_bytes_lem :
      (fs : EmbrFs V E) (path : List ℕ) (id : ℕ) (bytes : List ℕ) (format : Option ℕ)
      → ((mode : Bool) (e : E) (v : V) (p : List ℕ) (n : ℕ)
          → length (decode_with codec mode e v p n) ≡ n)
      → is_reversible format ≡ fs.holographic_mode
      → StoredAgain fs path id bytes format
  unfolding corrected get_versioned new_correction needs_correction apply put_counted
  store_bytes_lem fs path id bytes format sized same =
      let decoded = fresh_decoding fs path bytes in
      let r = encode_with codec fs.holographic_mode fs.reversible_encoder bytes path in
      let (t, made, mends) =
        apply-compute_correction bytes decoded
          (sym (sized fs.holographic_mode r.1 r.0 path (length bytes))) in
      let c : ChunkCorrection = record {
        chunk_id = id;
        correction = t;
        hash = compute_hash codec.sha256 bytes;
        parity = compute_data_parity bytes;
      } in
      let is_made : new_correction codec.sha256 id bytes decoded ≡ ok c =
        rw (new_correction, made) refl in
      let fs1 = with_chunk fs path id bytes in
      let there = lookup-insert_self id (chunk_of fs path bytes) fs.chunk_store.chunks in
      elim (Bool-cases (needs_correction c)) [
        | inl needed ↦
            let after : EmbrFs V E = record fs1 {
              corrections = next_corrections (put_counted id c fs1.corrections);
            } in
            (
              c,
              after,
              is_made,
              store_bytes_made fs path id bytes c is_made ∙ kept_correction fs1 id c needed,
              chunk_bytes_at after path format id (chunk_of fs path bytes) there
                  ∙ ap
                      (λ m.
                        done (corrected after id (decode_with codec m r.1 r.0 path (length bytes))))
                      same
                  ∙ ap done (
                      corrected_at codec after id c decoded
                        (lookup-insert_self id c fs.corrections.corrections)
                      ∙ mends)
                  ∙ ap (λ b. done (if b then bytes else corrected fs id bytes)) (sym needed),
              refl,
              refl,
            )
        | inr unneeded ↦
            let exact : decoded ≡ bytes = sym (unneeded-apply t decoded unneeded) ∙ mends in
            (
              c,
              fs1,
              is_made,
              store_bytes_made fs path id bytes c is_made ∙ skipped_correction fs1 id c unneeded,
              chunk_bytes_at fs1 path format id (chunk_of fs path bytes) there
                  ∙ ap
                      (λ m.
                        done (corrected fs id (decode_with codec m r.1 r.0 path (length bytes))))
                      same
                  ∙ ap (λ d. done (corrected fs id d)) exact
                  ∙ ap (λ b. done (if b then bytes else corrected fs id bytes)) (sym unneeded),
              refl,
              refl,
            )
      ]
