-- ===== src/EmbrFs/Encoded.antt =====
-- What the loop of a write leaves for the chunks that it encodes.
use embeddenator_fs.Prelude.{
  ℕ, ◌+◌, ◌-◌, ◌^◌, ◌≤◌, ◌<◌, ◌≡◌, refl, sym, ap, ◌∙◌, List, [], ◌∷◌, ◌++◌, All, Bool, arith,
  length, take, drop, take-append-drop, length-drop,
}
use embeddenator_fs.Prelude.Run.{ok}
use embeddenator_fs.Types.{wrap64}
use embeddenator_fs.Correction.{
  ChunkCorrection, apply, new_correction, compute_hash, compute_data_parity,
}
use embeddenator_fs.Correction.Strategy.{apply-compute_correction}
use embeddenator_fs.ChunkStore.{VersionedChunk, new_chunk}
use embeddenator_fs.EmbrFs.{
  Codec, EmbrFs, default_chunk_size, decode_with, encode_with, encode_chunk, decode_chunk,
}
use embeddenator_fs.EmbrFs.Write.{Encoded, push_chunk, encode_one, encode_chunks}
use embeddenator_fs.EmbrFs.Mends.{Extends, compute_correction-Extends}

module _ {ℓ} {V E : Type ℓ} (codec : Codec V E) where
  -- What the file system relies on in its encoders: a decoding has the length that is asked for, a
  -- shorter one is the beginning of a longer one, and to encode does not change what other vectors
  -- decode to.
  pub record IsCodec : Type ℓ where
    pub sized :
        (mode : Bool) (e : E) (v : V) (path : List ℕ) (n : ℕ)
        → length (decode_with codec mode e v path n) ≡ n
    pub nested :
        (mode : Bool) (e : E) (v : V) (path : List ℕ) (n k : ℕ)
        → n ≤ k
        → take n (decode_with codec mode e v path k) ≡ decode_with codec mode e v path n
    pub stable :
        (mode : Bool) (e : E) (bytes : List ℕ) (w : V) (path path' : List ℕ) (n : ℕ)
        → decode_with codec mode (encode_with codec mode e bytes path').1 w path n
          ≡ decode_with codec mode e w path n

  -- A chunk of the loop: its bytes, what is stored, and the correction.
  abbrev pub Triple : Type ℓ
  Triple = List ℕ × VersionedChunk V × ChunkCorrection

  abbrev pub bytes_of : List Triple → List (List ℕ)
  bytes_of [] = []
  bytes_of ((bytes, chunk, correction) ∷ ts) = bytes ∷ bytes_of ts

  -- The vectors of the loop, when the ids are given out from `n` on.
  abbrev pub numbered : ℕ → List Triple → Encoded V
  numbered n [] = record { chunk_updates = []; corrections_to_add = []; chunk_ids = [] }
  numbered n ((bytes, chunk, correction) ∷ ts) =
      push_chunk codec (n, chunk, correction) (numbered (n + 1) ts)

  -- The correction mends what a read decodes, up to what lies behind the bytes of the chunk.
  abbrev pub Mends : Bool → E → List ℕ → Triple → Type 0
  Mends mode e path (bytes, chunk, correction) =
      (more : List ℕ) × (apply correction
          (decode_with codec mode e chunk.vector path default_chunk_size)
        ≡ bytes ++ more)
      × (length more ≤ default_chunk_size - length bytes)

  -- Two states of the encoder from which every vector decodes to the same.
  abbrev pub Agree : Bool → E → E → Type ℓ
  Agree mode e e' =
      (v : V) (path : List ℕ) (n : ℕ)
      → decode_with codec mode e v path n ≡ decode_with codec mode e' v path n

  pub Mends-Agree :
      (mode : Bool) (e e' : E) (path : List ℕ) (ts : List Triple)
      → Agree mode e e'
      → All (Mends mode e path) ts
      → All (Mends mode e' path) ts
  Mends-Agree mode e e' path [] agree all = tt
  Mends-Agree mode e e' path ((bytes, chunk, correction) ∷ ts) agree ((more, mends, few), rest) = (
    (more, ap (apply correction) (sym (agree chunk.vector path default_chunk_size)) ∙ mends, few),
    Mends-Agree mode e e' path ts agree rest,
  )

  new_correction-Extends :
      (id : ℕ) (o a t : List ℕ)
      → length o ≡ length a
      → (c : ChunkCorrection) × (new_correction codec.sha256 id o a ≡ ok c)
        × Extends o t (apply c (a ++ t))
  unfolding new_correction apply
  new_correction-Extends id o a t e =
      let (c, made, mends) = apply-compute_correction o a e in
      (
        record {
          chunk_id = id;
          correction = c;
          hash = compute_hash codec.sha256 o;
          parity = compute_data_parity o;
        },
        rw made refl,
        compute_correction-Extends o a t c e made,
      )

  module _ (lawful : IsCodec) where
    -- One round of the loop: it does not panic, and its correction mends the longer decoding.
    encode_one_lem :
        (fs : EmbrFs V E) (path bytes : List ℕ)
        → length bytes ≤ default_chunk_size
        → (t : Triple) × (e : E) × (t.0 ≡ bytes)
          × (encode_one codec fs path bytes
              ≡ ok (
                (fs.next_chunk_id, t.1, t.2),
                record fs { next_chunk_id = wrap64 (fs.next_chunk_id + 1); reversible_encoder = e },
              ))
          × Mends fs.holographic_mode fs.reversible_encoder path t
          × Agree fs.holographic_mode e fs.reversible_encoder
    unfolding encode_one encode_chunk decode_chunk
    encode_one_lem fs path bytes fits =
        let mode = fs.holographic_mode in
        let r = encode_with codec mode fs.reversible_encoder bytes path in
        let decoded = decode_with codec mode r.1 r.0 path (length bytes) in
        let long = decode_with codec mode r.1 r.0 path default_chunk_size in
        let rest = drop (length bytes) long in
        let split : decoded ++ rest ≡ long =
          ap (λ d. d ++ rest)
            (sym (lawful.nested mode r.1 r.0 path (length bytes) default_chunk_size fits))
          ∙ take-append-drop (length bytes) long in
        let (c, made, (more, mends, few)) =
          new_correction-Extends fs.next_chunk_id bytes decoded rest
            (sym (lawful.sized mode r.1 r.0 path (length bytes))) in
        (
          (bytes, new_chunk r.0 (length bytes) (compute_hash codec.sha256 bytes), c),
          r.1,
          refl,
          rw made refl,
          (
            more,
            ap (apply c) (
                  sym (
                    lawful.stable mode fs.reversible_encoder bytes r.0 path path default_chunk_size)
                  ∙ sym split)
                ∙ mends,
            omega (
              arith,
              few,
              length-drop (length bytes) long,
              lawful.sized mode r.1 r.0 path default_chunk_size,
            ),
          ),
          λ v p n. lawful.stable mode fs.reversible_encoder bytes v p path n,
        )

    encode_step :
        (fs fs1 fs2 : EmbrFs V E) (path bytes : List ℕ) (chunks : List (List ℕ))
        (one : ℕ × VersionedChunk V × ChunkCorrection) (rest : Encoded V)
        → encode_one codec fs path bytes ≡ ok (one, fs1)
        → encode_chunks codec fs1 path chunks ≡ ok (rest, fs2)
        → encode_chunks codec fs path (bytes ∷ chunks) ≡ ok (push_chunk codec one rest, fs2)
    unfolding encode_chunks
    encode_step fs fs1 fs2 path bytes chunks one rest first others = rw (first, others) refl

    -- What the loop leaves: the vectors for consecutive ids, with corrections that mend, and a file
    -- system of which the next id and the state of the encoder alone are new.
    abbrev pub EncodedAs : EmbrFs V E → List ℕ → List (List ℕ) → Type ℓ
    EncodedAs fs path chunks =
        (ts : List Triple) × (k : ℕ) × (e : E) × (bytes_of ts ≡ chunks)
        × (encode_chunks codec fs path chunks
            ≡ ok (
              numbered fs.next_chunk_id ts,
              record fs { next_chunk_id = k; reversible_encoder = e },
            ))
        × All (Mends fs.holographic_mode fs.reversible_encoder path) ts
        × Agree fs.holographic_mode e fs.reversible_encoder

    pub encode_chunks_lem :
        (chunks : List (List ℕ)) (fs : EmbrFs V E) (path : List ℕ)
        → All (λ bytes. length bytes ≤ default_chunk_size) chunks
        → fs.next_chunk_id + length chunks < 2 ^ 64
        → EncodedAs fs path chunks
    unfolding encode_chunks
    encode_chunks_lem [] fs path fit small =
        ([], fs.next_chunk_id, fs.reversible_encoder, refl, refl, tt, λ v p n. refl)
    encode_chunks_lem (bytes ∷ chunks) fs path (fits, fit) small =
        let ((b, chunk, correction), e, is_bytes, encoded, mends, agree) =
          encode_one_lem fs path bytes fits in
        let next : wrap64 (fs.next_chunk_id + 1) ≡ fs.next_chunk_id + 1 = omega (arith, small) in
        let fs1 : EmbrFs V E = record fs {
          next_chunk_id = fs.next_chunk_id + 1;
          reversible_encoder = e;
        } in
        let (ts, k, e', are_chunks, rest, all, agree') =
          encode_chunks_lem chunks fs1 path fit (omega (arith, small)) in
        (
          (b, chunk, correction) ∷ ts,
          k,
          e',
          ap (λ x. x ∷ bytes_of ts) is_bytes ∙ ap (λ cs. bytes ∷ cs) are_chunks,
          encode_step fs fs1 (record fs { next_chunk_id = k; reversible_encoder = e' }) path bytes
              chunks (fs.next_chunk_id, chunk, correction) (numbered (fs.next_chunk_id + 1) ts)
              (encoded
                ∙ ap
                    (λ n. ok (
                      (fs.next_chunk_id, chunk, correction),
                      record fs { next_chunk_id = n; reversible_encoder = e },
                    ))
                    next)
              rest,
          (mends, Mends-Agree fs.holographic_mode e fs.reversible_encoder path ts agree all),
          λ v p n. agree' v p n ∙ agree v p n,
        )
