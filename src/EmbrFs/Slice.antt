-- ===== src/EmbrFs/Slice.antt =====
-- A read of a range returns a slice of the file.
use embeddenator_fs.Prelude.{
  ℕ, ◌+◌, ◌-◌, ◌^◌, ◌<◌, ◌≡◌, ◌≢◌, refl, sym, ap, ◌∙◌, min, max, none, some, List, [], ◌∷◌, ◌++◌,
  All, false, if◌then◌else◌, ◌==◌, ◌||◌, ==_iff, leb_cases, ltb, leb, lt→ltb, le→ltb, Bool-cases,
  inl, inr, arith, length, length-append, take, drop, take_all, drop_all, length-take, length-drop,
}
use embeddenator_fs.Prelude.Run.{ok}
use embeddenator_fs.Types.{wrap64}
use embeddenator_fs.ChunkStore.{VersionedChunk, get}
use embeddenator_fs.Manifest.Entry.Offsets.Ranges.{
  window, window-before, window-inside, take_of_min, take_nil, drop_nil, joined,
}
use embeddenator_fs.Manifest.{get_file}
use embeddenator_fs.Manifest.Entry.{VersionedFileEntry}
use embeddenator_fs.EmbrFs.{Codec, EmbrFs, done, prepend}
use embeddenator_fs.EmbrFs.Range.{
  before, range_chunk, read_sequential, answer, read_part, read_range,
}

module _ {ℓ} {V E : Type ℓ} (codec : Codec V E) where
  -- The chunk under an id is stored with its size, and is decoded and corrected to the content.
  abbrev pub Reads : EmbrFs V E → List ℕ → (ℕ → List ℕ) → ℕ → Type ℓ
  Reads fs path content id =
      (chunk : VersionedChunk V) × (v : ℕ) × (get fs.chunk_store id ≡ some (chunk, v))
      × (chunk.original_size ≡ length (content id))
      × (range_chunk codec fs path id chunk ≡ content id)

  -- What the loop does with a chunk of the content `bytes` between `start` and `end`.
  cut :
      (start end : ℕ) (bytes : List ℕ)
      → (if ltb start end then take (end - start) (drop start bytes) else [])
        ≡ take (end - start) (drop start bytes)
  cut start end bytes = elim (leb_cases end start) [
    | inl (_, out) ↦
        let z : end - start ≡ 0 = omega (arith, out) in rw (le→ltb start end out, z) refl
    | inr (_, inside) ↦ rw (lt→ltb start end inside) refl
  ]

  -- One round of the loop.
  sequential_step :
      (fs : EmbrFs V E) (path : List ℕ) (content : ℕ → List ℕ) (id : ℕ) (ids : List ℕ)
      (o collected offset len : ℕ)
      → Reads fs path content id
      → read_sequential codec fs path (id ∷ ids) o collected offset len ≡ (
          let chunk_end = wrap64 (o + length (content id)) in
          let end_offset = wrap64 (offset + len) in
          let size = min (end_offset - o) (length (content id)) - (offset - o) in
          let piece = take size (drop (offset - o) (content id)) in
          if leb chunk_end offset
          then read_sequential codec fs path ids chunk_end collected offset len
          else if leb end_offset o
          then ok (done [])
          else if leb len (collected + length piece)
          then before piece (ok (done []))
          else before piece
              (read_sequential codec fs path ids chunk_end (collected + length piece) offset len))
  unfolding read_sequential
  sequential_step fs path content id ids o collected offset len (chunk, v, found, sized, reads) =
      rw
        (
          read_sequential,
          found,
          reads,
          sized,
          cut (offset - o) (min (wrap64 (offset + len) - o) (length (content id))) (content id),
        )
        refl

  sequential_lem :
      (fs : EmbrFs V E) (path : List ℕ) (content : ℕ → List ℕ) (ids : List ℕ)
      (o collected offset len : ℕ)
      → All (Reads fs path content) ids
      → o + length (joined content ids) < 2 ^ 64
      → offset + len < 2 ^ 64
      → 0 < len
      → collected ≡ min (max offset o) (offset + len) - offset
      → read_sequential codec fs path ids o collected offset len
        ≡ ok (done (window o offset (offset + len) (joined content ids)))
  unfolding read_sequential joined before prepend
  sequential_lem fs path content [] o collected offset len all small bounded positive so_far = sym (
      ap (λ t. ok (done (take (offset + len - max offset o) t))) (drop_nil {A = ℕ} (offset - o))
      ∙ ap (λ t. ok (done t)) (take_nil {A = ℕ} (offset + len - max offset o)))
  sequential_lem fs path content (id ∷ ids) o collected offset len (reads, all) small bounded
        positive so_far =
      let bytes = content id in
      let others = joined content ids in
      let s = length bytes in
      let total = length-append bytes others in
      let next : wrap64 (o + s) ≡ o + s = omega (arith, small, total) in
      let last : wrap64 (offset + len) ≡ offset + len = omega (arith, bounded) in
      let size = min (offset + len - o) s - (offset - o) in
      let piece = take size (drop (offset - o) bytes) in
      let piece_size : length piece ≡ size =
        length-take size (drop (offset - o) bytes)
        ∙ omega (arith, length-drop (offset - o) bytes) in
      let rest = λ (k : ℕ) (q : k ≡ min (max offset (o + s)) (offset + len) - offset).
        sequential_lem fs path content ids (o + s) k offset len all (omega (arith, small, total))
          bounded positive q in
      sequential_step fs path content id ids o collected offset len reads
      ∙ rw (next, last)
          (elim (leb_cases (o + s) offset) [
            | inl (is_before, before_range) ↦ rw (is_before) (
                rest collected (omega (arith, so_far, before_range))
                ∙ ap (λ t. ok (done t))
                    (sym (window-before o offset (offset + len) bytes others before_range)))
            | inr (does_reach, reaches) ↦ elim (leb_cases (offset + len) o) [
              | inl (is_past, past) ↦
                  let nothing : offset + len - max offset o ≡ 0 = omega (arith, past) in
                  rw (does_reach, is_past)
                    (sym
                      (ap (λ n. ok (done (take n (drop (offset - o) (bytes ++ others))))) nothing))
              | inr (is_inside, inside) ↦
                  let split = window-inside o offset (offset + len) bytes others reaches inside in
                  elim (leb_cases len (collected + length piece)) [
                    | inl (is_enough, enough) ↦
                        let nothing : offset + len - max offset (o + s) ≡ 0 =
                          omega (arith, enough, piece_size, so_far, reaches, inside) in
                        rw (does_reach, is_inside, is_enough)
                          (ap (λ t. ok (done (piece ++ t)))
                              (sym (ap (λ n. take n (drop (offset - (o + s)) others)) nothing))
                            ∙ ap (λ t. ok (done t)) (sym split))
                    | inr (is_short, short) ↦
                        rw (does_reach, is_inside, is_short)
                          (ap (before piece) (
                              rest (collected + length piece)
                                (omega (arith, short, piece_size, so_far, reaches, inside)))
                            ∙ ap (λ t. ok (done t)) (sym split))
                  ]
            ]
          ])

  part_step :
      (fs : EmbrFs V E) (path : List ℕ) (e : VersionedFileEntry) (v offset len : ℕ)
      → get_file fs.manifest path ≡ some (e, v)
      → e.deleted ≡ false
      → e.chunk_offsets ≡ none
      → read_range codec fs path offset len ≡ (
          if leb e.size offset || len == 0
          then ok (done ([], e.version))
          else answer codec
              (min len (e.size - offset))
              e.version
              (read_sequential codec fs e.path e.chunks 0 0 offset (min len (e.size - offset))))
  unfolding read_range read_part
  part_step fs path e v offset len shown live plain = rw (read_range, shown, live, plain) refl

  -- A read of a range of a file without an index of offsets neither panics nor fails: it returns the
  -- bytes of the file from the offset on, as many as were asked for or as there are, with the version of
  -- the file, when every chunk of the file is stored with its size and is decoded and corrected to its
  -- content, and the size of the file is that of the contents together, below 2 ^ 64.
  pub read_range-drop :
      (fs : EmbrFs V E) (path : List ℕ) (e : VersionedFileEntry) (v : ℕ) (content : ℕ → List ℕ)
      (offset len : ℕ)
      → get_file fs.manifest path ≡ some (e, v)
      → e.deleted ≡ false
      → e.chunk_offsets ≡ none
      → All (Reads fs e.path content) e.chunks
      → e.size ≡ length (joined content e.chunks)
      → e.size < 2 ^ 64
      → read_range codec fs path offset len
        ≡ ok (done (take len (drop offset (joined content e.chunks)), e.version))
  unfolding answer
  read_range-drop fs path e v content offset len shown live plain all sized small =
      let file = joined content e.chunks in
      part_step fs path e v offset len shown live plain ∙ elim (leb_cases e.size offset) [
        | inl (is_behind, behind) ↦ rw (is_behind) (
            sym (
              ap (λ t. ok (done (take len t, e.version)))
                (drop_all offset file (omega (arith, behind, sized)))
              ∙ ap (λ t. ok (done (t, e.version))) (take_nil {A = ℕ} len)))
        | inr (is_within, within) ↦ elim (Bool-cases (len == 0)) [
          | inl nothing ↦
              rw (is_within, nothing)
                (sym (
                  ap (λ n. ok (done (take n (drop offset file), e.version)))
                    ((==_iff len 0).0 nothing)))
          | inr bytes ↦
              let positive : len ≢ 0 = ground (arith, bytes) in
              let n = min len (e.size - offset) in
              let l = length-drop offset file in
              let whole : offset + n - max offset 0 ≡ n = omega (arith, within) in
              let start : offset - 0 ≡ offset = omega arith in
              let at_most : n ≡ min len (length (drop offset file)) = omega (arith, l, sized) in
              let cut_again : take n (take n (drop offset file)) ≡ take n (drop offset file) =
                take_all n (take n (drop offset file))
                  (omega (arith, length-take n (drop offset file))) in
              rw (is_within, bytes)
                (ap (answer codec n e.version) (
                    sequential_lem fs e.path content e.chunks 0 0 offset n all
                      (omega (arith, sized, small)) (omega (arith, small, within))
                      (omega (arith, positive, within)) (omega arith))
                  ∙ ap (λ k. ok (done (take n (take k (drop (offset - 0) file)), e.version))) whole
                  ∙ ap (λ k. ok (done (take n (take n (drop k file)), e.version))) start
                  ∙ ap (λ t. ok (done (t, e.version)))
                      (cut_again
                        ∙ ap (λ k. take k (drop offset file)) at_most
                        ∙ take_of_min len (drop offset file)))
        ]
      ]
