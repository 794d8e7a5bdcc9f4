-- ===== src/Streaming/Remaining.antt =====
-- What a decoder still has to read, and a round of the loop of a read.
use embeddenator_fs.Prelude.{
  ℕ, ◌+◌, ◌-◌, ◌^◌, ◌≤◌, ◌<◌, ◌≡◌, refl, sym, ap, ◌∙◌, subst, Option, List, [], ◌∷◌, ◌++◌, true,
  length, take, drop, length-append, length-drop, length-take, arith,
}
use embeddenator_fs.Types.{wrap64}
use embeddenator_fs.EmbrFs.{Codec, EmbrFs, FsResult, done, prepend}
use embeddenator_fs.Streaming.Slices.{concat, take_within}
use embeddenator_fs.Streaming.Decoder.{StreamingDecoder, chunk_bytes, copy, copy_len, behind}
use embeddenator_fs.Streaming.Pieces.{drop-drop, take_two}

module _ {ℓ} {V E : Type ℓ} (codec : Codec V E) where
  -- The chunks of the ids decode to these bytes.
  abbrev pub DecodesTo : EmbrFs V E → List ℕ → Option ℕ → List ℕ → List (List ℕ) → Type 0
  DecodesTo fs path format [] [] = Unit
  DecodesTo fs path format [] (c ∷ cs) = ⊥
  DecodesTo fs path format (id ∷ ids) [] = ⊥
  DecodesTo fs path format (id ∷ ids) (c ∷ cs) =
      (chunk_bytes codec fs path format id ≡ done c) × DecodesTo fs path format ids cs

  -- The chunks that are not loaded yet decode to `cs`, and with what is left of the current one they
  -- are the bytes of `stream`.
  abbrev pub Ahead : StreamingDecoder V E → List (List ℕ) → List ℕ → Type 0
  Ahead d cs stream =
      (ids : List ℕ) × (drop d.current_chunk_idx d.chunks ≡ ids)
      × DecodesTo d.fs d.path d.encoding_format ids cs
      × (drop d.position_in_chunk d.current_chunk_data ++ concat cs ≡ stream)

  -- A read of `n` bytes of the stream, which stands behind them after it.
  pub record ReadTo (d : StreamingDecoder V E) (n : ℕ) (stream : List ℕ)
      (r : FsResult (List ℕ) × StreamingDecoder V E) : Type ℓ where
    pub answer : r.0 ≡ done (take n stream)
    pub left : (cs : List (List ℕ)) × Ahead r.1 cs (drop n stream)
    pub counted : r.1.total_bytes_read ≡ d.total_bytes_read + length (take n stream)
    pub file_size : r.1.file_size ≡ d.file_size
    pub chunks : r.1.chunks ≡ d.chunks

  pub nothing_read :
      (d : StreamingDecoder V E) (n : ℕ) (cs : List (List ℕ)) (stream : List ℕ)
      → Ahead d cs stream
      → take n stream ≡ []
      → drop n stream ≡ stream
      → ReadTo d n stream (done [], d)
  nothing_read d n cs stream ahead none_taken none_dropped = record {
    answer = ap done (sym none_taken);
    left = (cs, subst (Ahead d cs) (sym none_dropped) ahead);
    counted = omega (arith, ap length none_taken);
    file_size = refl;
    chunks = refl;
  }

  -- A round that copies, and the rounds after it.
  pub copy_step :
      (next : ℕ → StreamingDecoder V E → FsResult (List ℕ) × StreamingDecoder V E)
      (d : StreamingDecoder V E) (needed : ℕ) (cs : List (List ℕ)) (stream : List ℕ)
      → drop d.position_in_chunk d.current_chunk_data ++ concat cs ≡ stream
      → d.total_bytes_read + needed < 2 ^ 64
      → (let n = copy_len codec d needed in
          ReadTo
            (behind codec d n)
            (needed - n)
            (drop n stream)
            (next (needed - n) (behind codec d n)))
      → ReadTo d needed stream (copy codec next needed (done true, d))
  unfolding copy prepend
  copy_step next d needed cs stream split small h =
      let n = copy_len codec d needed in
      let here = drop d.position_in_chunk d.current_chunk_data in
      let fits : n ≤ length here =
        omega (arith, length-drop d.position_in_chunk d.current_chunk_data) in
      let piece : take n here ≡ take n stream =
        sym (take_within n here (concat cs) fits) ∙ ap (take n) split in
      let total : wrap64 (d.total_bytes_read + n) ≡ d.total_bytes_read + n = omega arith in
      let both = take_two n needed stream (omega arith) in
      let sum : n + (needed - n) ≡ needed = omega arith in
      let r = next (needed - n) (behind codec d n) in
      let (cs', ahead) = h.left in
      record {
        answer =
            ap (prepend (take n here)) h.answer
            ∙ ap done (ap (λ t. t ++ take (needed - n) (drop n stream)) piece ∙ both);
        left = (
          cs',
          subst (Ahead r.1 cs') (drop-drop n (needed - n) stream ∙ ap (λ k. drop k stream) sum)
              ahead,
        );
        counted = omega (
          arith,
          h.counted,
          total,
          ap length both,
          length-append (take n stream) (take (needed - n) (drop n stream)),
          ap length piece,
          length-take n here,
        );
        file_size = h.file_size;
        chunks = h.chunks;
      }
