-- ===== src/Streaming/Reads.antt =====
-- Reads of a decoder, from its beginning and after a seek.
use embeddenator_fs.Prelude.{
  ℕ, zero, suc, ◌+◌, ◌-◌, ◌^◌, ◌≤◌, ◌<◌, ◌≡◌, ◌⊎◌, inl, inr, refl, sym, ap, ◌∙◌, min, Option, List,
  [], ◌∷◌, ◌++◌, true, false, ◌==◌, ==_iff, leb, leb_cases, if◌then◌else◌, length, ltb, ◌%◌, ◌/◌,
  take, drop, length-drop, length-take, take_all, drop_all, Bool-cases, arith,
}
use embeddenator_fs.Manifest.Entry.Offsets.Ranges.{take_nil, drop_nil}
use embeddenator_fs.EmbrFs.{Nothing, Codec, EmbrFs, FsResult, default_chunk_size, done, failed}
use embeddenator_fs.Streaming.Slices.{concat, drop_within}
use embeddenator_fs.Streaming.Decoder.{
  StreamingDecoder, chunk_bytes, decode_next_chunk, load, loaded, copy, copy_len, behind, read_loop,
  read_n_bytes, cut, seek_to, preloaded,
}
use embeddenator_fs.Streaming.Pieces.{drop_head, drop_end, drop-drop}
use embeddenator_fs.Streaming.Remaining.{DecodesTo, Ahead, ReadTo, nothing_read, copy_step}

done_injective : (a b : List ℕ) → done a ≡ done b → a ≡ b
done_injective a b h = cc

module _ {ℓ} {V E : Type ℓ} (codec : Codec V E) where
  -- Nothing is left of the current chunk.
  abbrev at_end : StreamingDecoder V E → ℕ
  at_end d = if leb (length d.current_chunk_data) d.position_in_chunk then 0 else 1

  load_next :
      (d : StreamingDecoder V E) (id : ℕ) (ids c : List ℕ)
      → leb (length d.current_chunk_data) d.position_in_chunk ≡ true
      → drop d.current_chunk_idx d.chunks ≡ id ∷ ids
      → chunk_bytes codec d.fs d.path d.encoding_format id ≡ done c
      → load codec d ≡ (
        done true,
        record d {
          current_chunk_idx = d.current_chunk_idx + 1;
          current_chunk_data = c;
          position_in_chunk = 0;
        },
      )
  unfolding load decode_next_chunk loaded
  load_next d id ids c ended at decoded =
      rw
        (
          load,
          ended,
          decode_next_chunk,
          (drop_head d.current_chunk_idx id d.chunks ids at).0,
          decoded,
        )
        refl

  load_none :
      (d : StreamingDecoder V E)
      → leb (length d.current_chunk_data) d.position_in_chunk ≡ true
      → drop d.current_chunk_idx d.chunks ≡ []
      → load codec d ≡ (done false, d)
  unfolding load decode_next_chunk loaded
  load_none d ended at =
      rw (load, ended, decode_next_chunk, drop_end d.current_chunk_idx d.chunks at) refl

  zero_read :
      (d : StreamingDecoder V E) (n : ℕ) (cs : List (List ℕ)) (stream : List ℕ)
      → Ahead codec d cs stream
      → n ≡ 0
      → ReadTo codec d n stream (done [], d)
  zero_read d n cs stream ahead none_needed =
      nothing_read codec d n cs stream ahead (ap (λ k. take k stream) none_needed)
        (ap (λ k. drop k stream) none_needed)

  -- What a round more leaves to prove.
  abbrev Reads : ℕ → Type ℓ
  Reads fuel =
      (needed : ℕ) (d : StreamingDecoder V E) (cs : List (List ℕ)) (stream : List ℕ)
      → Ahead codec d cs stream
      → d.total_bytes_read + needed < 2 ^ 64
      → ((needed ≡ 0) ⊎ (length cs + at_end d < fuel))
      → ReadTo codec d needed stream (read_loop codec fuel needed d)

  enough_left :
      (d : StreamingDecoder V E) (needed fuel : ℕ) (cs : List (List ℕ))
      → length cs < fuel
      → (needed - copy_len codec d needed ≡ 0)
        ⊎ (length cs + at_end (behind codec d (copy_len codec d needed)) < fuel)
  enough_left d needed fuel cs less =
      elim (leb_cases needed (length d.current_chunk_data - d.position_in_chunk)) [
        | inl (t, all) ↦ inl (omega arith)
        | inr (t, part) ↦ inr (ground (arith, less))
      ]

  copy_round :
      (fuel needed : ℕ) (d : StreamingDecoder V E) (cs : List (List ℕ)) (stream : List ℕ)
      → Reads fuel
      → Ahead codec d cs stream
      → d.total_bytes_read + needed < 2 ^ 64
      → length cs < fuel
      → ReadTo codec d needed stream (copy codec (read_loop codec fuel) needed (done true, d))
  copy_round fuel needed d cs stream reads (ids, at, decoded, split) small less =
      let n = copy_len codec d needed in
      let here = drop d.position_in_chunk d.current_chunk_data in
      let fits : n ≤ length here =
        omega (arith, length-drop d.position_in_chunk d.current_chunk_data) in
      let split' : drop (d.position_in_chunk + n) d.current_chunk_data ++ concat cs
          ≡ drop n stream =
        ap (λ t. t ++ concat cs) (sym (drop-drop d.position_in_chunk n d.current_chunk_data))
        ∙ sym (drop_within n here (concat cs) fits)
        ∙ ap (drop n) split in
      copy_step codec (read_loop codec fuel) d needed cs stream split small (
        reads (needed - n) (behind codec d n) cs (drop n stream) (ids, at, decoded, split')
          (omega arith) (enough_left d needed fuel cs less))

  -- The loaded chunk takes the place of the one that was read.
  loaded_read :
      (d d1 : StreamingDecoder V E) (n : ℕ) (stream : List ℕ)
      (r : FsResult (List ℕ) × StreamingDecoder V E)
      → d1.total_bytes_read ≡ d.total_bytes_read
      → d1.file_size ≡ d.file_size
      → d1.chunks ≡ d.chunks
      → ReadTo codec d1 n stream r
      → ReadTo codec d n stream r
  loaded_read d d1 n stream r total size chunks h = record {
    answer = h.answer;
    left = h.left;
    counted = omega (arith, h.counted, total);
    file_size = h.file_size ∙ size;
    chunks = h.chunks ∙ chunks;
  }

  ended_round :
      (fuel needed : ℕ) (d : StreamingDecoder V E) (ids : List ℕ) (cs : List (List ℕ))
      (stream : List ℕ)
      → Reads fuel
      → leb (length d.current_chunk_data) d.position_in_chunk ≡ true
      → drop d.current_chunk_idx d.chunks ≡ ids
      → DecodesTo codec d.fs d.path d.encoding_format ids cs
      → concat cs ≡ stream
      → d.total_bytes_read + needed < 2 ^ 64
      → length cs < suc fuel
      → drop d.position_in_chunk d.current_chunk_data ≡ []
      → ReadTo codec d needed stream (copy codec (read_loop codec fuel) needed (load codec d))
  unfolding copy
  ended_round fuel needed d [] [] stream reads ended at decoded split small less nothing =
      rw (load_none d ended at) (
        nothing_read codec d needed [] stream ([], at, tt, ap (λ t. t ++ []) nothing ∙ split)
          (ap (take needed) (sym split) ∙ take_nil needed)
          (ap (drop needed) (sym split) ∙ drop_nil needed ∙ split))
  ended_round fuel needed d [] (c ∷ cs) stream reads ended at decoded split small less nothing =
      elim decoded [ ]
  ended_round fuel needed d (id ∷ ids) [] stream reads ended at decoded split small less nothing =
      elim decoded [ ]
  ended_round fuel needed d (id ∷ ids) (c ∷ cs) stream reads ended at decoded split small less
        nothing =
      let d1 : StreamingDecoder V E = record d {
        current_chunk_idx = d.current_chunk_idx + 1;
        current_chunk_data = c;
        position_in_chunk = 0;
      } in
      rw (load_next d id ids c ended at decoded.0) (
        loaded_read d d1 needed stream _ refl refl refl (
          copy_round fuel needed d1 cs stream reads
            (ids, (drop_head d.current_chunk_idx id d.chunks ids at).1, decoded.1, split) small
            (omega arith)))

  pub read_loop_lem : (fuel : ℕ) → Reads fuel
  unfolding read_loop load
  read_loop_lem zero needed d cs stream ahead small (inr less) = absurd (omega arith)
  read_loop_lem zero needed d cs stream ahead small (inl none_needed) =
      zero_read d needed cs stream ahead none_needed
  read_loop_lem (suc fuel) needed d cs stream ahead small enough = elim (Bool-cases (needed == 0)) [
    | inl z ↦ rw (read_loop, z) (zero_read d needed cs stream ahead ((==_iff needed 0).0 z))
    | inr nz ↦ elim (leb_cases (length d.current_chunk_data) d.position_in_chunk) [
      | inl (t, ended) ↦
          let nothing = drop_all d.position_in_chunk d.current_chunk_data ended in
          let (ids, at, decoded, split) = ahead in
          rw (read_loop, nz)
            (ended_round fuel needed d ids cs stream (read_loop_lem fuel) t at decoded
              (ap (λ x. x ++ concat cs) (sym nothing) ∙ split) small
              (ground (arith, enough, t, nz, ==_iff needed 0)) nothing)
      | inr (t, more) ↦
          rw (read_loop, nz, load, t)
            (copy_round fuel needed d cs stream (read_loop_lem fuel) ahead small
              (ground (arith, enough, t, nz, ==_iff needed 0)))
    ]
  ]

  decodes_length :
      (fs : EmbrFs V E) (path : List ℕ) (format : Option ℕ) (ids : List ℕ) (cs : List (List ℕ))
      → DecodesTo codec fs path format ids cs
      → length cs ≡ length ids
  decodes_length fs path format [] [] h = refl
  decodes_length fs path format [] (c ∷ cs) h = elim h [ ]
  decodes_length fs path format (id ∷ ids) [] h = elim h [ ]
  decodes_length fs path format (id ∷ ids) (c ∷ cs) h =
      ap suc (decodes_length fs path format ids cs h.1)

  cut_lem :
      (d : StreamingDecoder V E) (n : ℕ) (stream : List ℕ)
      (r : FsResult (List ℕ) × StreamingDecoder V E)
      → n ≤ d.file_size - d.total_bytes_read
      → ReadTo codec d n stream r
      → ReadTo codec d n stream (cut codec r)
  cut_lem d n stream (failed e, d') fits h = h
  cut_lem d n stream (done bytes, d') fits h =
      let same : bytes ≡ take n stream = done_injective bytes (take n stream) h.answer in
      record {
        answer =
            ap done (
              take_all (d'.file_size - (d'.total_bytes_read - length bytes)) bytes
                (omega (arith, ap length same, h.counted, h.file_size, length-take n stream)))
            ∙ h.answer;
        left = h.left;
        counted = h.counted;
        file_size = h.file_size;
        chunks = h.chunks;
      }

  -- A read of `n` bytes gives the bytes that come next, as many as were asked for, and no more than
  -- the file has and its chunks hold; the decoder then stands behind them, so that the reads that
  -- follow go on there. That is so wherever the chunks that are left decode, the decoder has read
  -- no more than the file has, and the size is a word.
  pub read_n_bytes-ReadTo :
      (d : StreamingDecoder V E) (n : ℕ) (cs : List (List ℕ)) (stream : List ℕ)
      → Ahead codec d cs stream
      → d.total_bytes_read ≤ d.file_size
      → d.file_size < 2 ^ 64
      → ReadTo codec d (min n (d.file_size - d.total_bytes_read)) stream (read_n_bytes codec d n)
  unfolding read_n_bytes
  read_n_bytes-ReadTo d n cs stream (ids, at, decoded, split) within small =
      let k = min n (d.file_size - d.total_bytes_read) in
      cut_lem d k stream (read_loop codec (length d.chunks + 2) k d) (omega arith) (
        read_loop_lem (length d.chunks + 2) k d cs stream (ids, at, decoded, split) (omega arith)
          (inr (
            ground (
              arith,
              decodes_length d.fs d.path d.encoding_format ids cs decoded,
              ap length at,
              length-drop d.current_chunk_idx d.chunks,
            ))))

  -- What a decoder reads after a seek into a chunk: the rest of that chunk, and then the chunk again.
  abbrev pub seen_again : ℕ → List ℕ → List ℕ
  seen_again position c =
      if ltb 0 (position % default_chunk_size) then drop (position % default_chunk_size) c else []

  abbrev Sought :
      StreamingDecoder V E
      → ℕ
      → List ℕ
      → List (List ℕ)
      → FsResult Nothing × StreamingDecoder V E
      → Type 0
  Sought d position c cs s =
      Ahead codec s.1 (c ∷ cs) (seen_again position c ++ concat (c ∷ cs))
      × (s.1.total_bytes_read ≡ position)
      × (s.1.file_size ≡ d.file_size)

  seek_to-Sought :
      (d : StreamingDecoder V E) (position id : ℕ) (ids c : List ℕ) (cs : List (List ℕ))
      → position < d.file_size
      → drop (position / default_chunk_size) d.chunks ≡ id ∷ ids
      → DecodesTo codec d.fs d.path d.encoding_format (id ∷ ids) (c ∷ cs)
      → Sought d position c cs (seek_to codec d position)
  unfolding seek_to decode_next_chunk preloaded
  seek_to-Sought d position id ids c cs inside at decoded =
      let t = position / default_chunk_size in
      let off = position % default_chunk_size in
      let before : leb d.file_size position ≡ false = ground (arith, inside) in
      elim (Bool-cases (ltb 0 off)) [
        | inr aligned ↦
            rw (seek_to, before, aligned)
              ((id ∷ ids, at, decoded, ap (λ x. x ++ concat (c ∷ cs)) (drop_nil off)), refl, refl)
        | inl within ↦
            let back : (t + 1) - 1 ≡ t = omega arith in
            rw
              (
                seek_to,
                before,
                within,
                decode_next_chunk,
                (drop_head t id d.chunks ids at).0,
                decoded.0,
                preloaded,
              )
              ((id ∷ ids, ap (λ i. drop i d.chunks) back ∙ at, decoded, refl), refl, refl)
      ]

  -- A read after a seek to a position inside the file gives the bytes from the position on only where
  -- a chunk begins there. Inside of a chunk it gives what is left of that chunk, and then the whole
  -- chunk again, before the chunks that follow. That is for chunks that decode and a size that is a
  -- word.
  pub read_n_bytes-seek_to :
      (d : StreamingDecoder V E) (position n id : ℕ) (ids c : List ℕ) (cs : List (List ℕ))
      → position < d.file_size
      → d.file_size < 2 ^ 64
      → drop (position / default_chunk_size) d.chunks ≡ id ∷ ids
      → DecodesTo codec d.fs d.path d.encoding_format (id ∷ ids) (c ∷ cs)
      → (read_n_bytes codec (seek_to codec d position).1 n).0
        ≡ done (take (min n (d.file_size - position)) (seen_again position c ++ concat (c ∷ cs)))
  read_n_bytes-seek_to d position n id ids c cs inside small at decoded =
      let s = (seek_to codec d position).1 in
      let (ahead, total, size) = seek_to-Sought d position id ids c cs inside at decoded in
      let r =
        read_n_bytes-ReadTo s n (c ∷ cs) (seen_again position c ++ concat (c ∷ cs)) ahead
          (omega (arith, total, size, inside)) (omega (arith, size, small)) in
      r.answer
      ∙ ap (λ k. done (take (min n k) (seen_again position c ++ concat (c ∷ cs))))
          (omega (arith, total, size))
