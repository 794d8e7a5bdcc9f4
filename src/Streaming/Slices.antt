-- ===== src/Streaming/Slices.antt =====
-- However the input is sliced, the loop processes the same chunks.
use embeddenator_fs.Prelude.{
  ℕ, zero, suc, ◌≤◌, ◌<◌, ◌≡◌, inl, inr, refl, sym, ap, ◌∙◌, List, [], ◌∷◌, ◌++◌, append_assoc,
  append-nil, leb_cases, length, take, drop, length-append, length-drop, take_all, drop_all, arith,
}
use embeddenator_fs.Prelude.Run.{Run, ok, panic, ◌>>=◌}
use embeddenator_fs.EmbrFs.{Nothing, FsResult, done, failed}
use embeddenator_fs.EmbrFs.Write.{chunks_on}
use embeddenator_fs.Streaming.Buffer.{go_on, drain, add_slice, process_rest}

abbrev pub chunk_list : ℕ → List ℕ → List (List ℕ)
chunk_list size bytes = chunks_on (length bytes) size bytes

abbrev pub concat : List (List ℕ) → List ℕ
concat [] = []
concat (s ∷ slices) = s ++ concat slices

pub take_within : (n : ℕ) (xs ys : List ℕ) → n ≤ length xs → take n (xs ++ ys) ≡ take n xs
take_within zero xs ys h = refl
take_within (suc n) [] ys h = absurd (omega arith)
take_within (suc n) (x ∷ xs) ys h = ap (λ t. x ∷ t) (take_within n xs ys (omega arith))

pub drop_within : (n : ℕ) (xs ys : List ℕ) → n ≤ length xs → drop n (xs ++ ys) ≡ drop n xs ++ ys
drop_within zero xs ys h = refl
drop_within (suc n) [] ys h = absurd (omega arith)
drop_within (suc n) (x ∷ xs) ys h = drop_within n xs ys (omega arith)

chunks_on_nil : (n size : ℕ) → chunks_on n size [] ≡ []
unfolding chunks_on
chunks_on_nil zero size = refl
chunks_on_nil (suc n) size = refl

-- More fuel than there are bytes changes nothing.
chunks_on_stable :
    (n m size : ℕ) (bytes : List ℕ)
    → 0 < size
    → length bytes ≤ n
    → length bytes ≤ m
    → chunks_on n size bytes ≡ chunks_on m size bytes
unfolding chunks_on
chunks_on_stable n m size [] pos hn hm = chunks_on_nil n size ∙ sym (chunks_on_nil m size)
chunks_on_stable zero m size (b ∷ bytes) pos hn hm = absurd (omega arith)
chunks_on_stable (suc n) zero size (b ∷ bytes) pos hn hm = absurd (omega arith)
chunks_on_stable (suc n) (suc m) size (b ∷ bytes) pos hn hm =
    ap (λ t. take size (b ∷ bytes) ∷ t)
      (chunks_on_stable n m size (drop size (b ∷ bytes)) pos
        (omega (arith, length-drop size (b ∷ bytes))) (omega (arith, length-drop size (b ∷ bytes))))

chunk_list_full :
    (size : ℕ) (bytes : List ℕ)
    → 0 < size
    → size ≤ length bytes
    → chunk_list size bytes ≡ take size bytes ∷ chunk_list size (drop size bytes)
unfolding chunks_on
chunk_list_full size [] pos h = absurd (omega arith)
chunk_list_full size (b ∷ bytes) pos h =
    ap (λ t. take size (b ∷ bytes) ∷ t)
      (chunks_on_stable (length bytes) (length (drop size (b ∷ bytes))) size (drop size (b ∷ bytes))
        pos (omega (arith, length-drop size (b ∷ bytes))) (omega arith))

-- The first chunk of a buffer that holds one, whatever comes after it.
chunk_list_append :
    (size : ℕ) (buffer bytes : List ℕ)
    → 0 < size
    → size ≤ length buffer
    → chunk_list size (buffer ++ bytes)
      ≡ take size buffer ∷ chunk_list size (drop size buffer ++ bytes)
chunk_list_append size buffer bytes pos h =
    chunk_list_full size (buffer ++ bytes) pos (omega (arith, length-append buffer bytes))
    ∙ ap (λ t. t ∷ chunk_list size (drop size (buffer ++ bytes))) (take_within size buffer bytes h)
    ∙ ap (λ t. take size buffer ∷ chunk_list size t) (drop_within size buffer bytes h)

chunk_list_short :
    (size b : ℕ) (bytes : List ℕ)
    → length (b ∷ bytes) ≤ size
    → chunk_list size (b ∷ bytes) ≡ (b ∷ bytes) ∷ []
unfolding chunks_on
chunk_list_short size b bytes h =
    ap (λ t. t ∷ chunks_on (length bytes) size (drop size (b ∷ bytes)))
      (take_all size (b ∷ bytes) h)
    ∙ ap (λ t. (b ∷ bytes) ∷ t)
        (ap (chunks_on (length bytes) size) (drop_all size (b ∷ bytes) h)
          ∙ chunks_on_nil (length bytes) size)

module _ {ℓ} {M : Type ℓ} where
  unfoldable pub then_each :
      (M → Run (FsResult Nothing × M)) → FsResult Nothing × M → Run (FsResult Nothing × M)
  then_each next (done u, made) = next made
  then_each next (failed e, made) = ok (failed e, made)

  unfoldable pub then_feed :
      (List ℕ → M → Run (FsResult Nothing × M))
      → FsResult Nothing × List ℕ × M
      → Run (FsResult Nothing × M)
  then_feed next (done u, rest, made) = next rest made
  then_feed next (failed e, rest, made) = ok (failed e, made)

  module _ (step : M → List ℕ → Run (FsResult Nothing × M)) (size : ℕ) where
    -- The work on a list of chunks, up to the first that fails.
    unfoldable pub each : List (List ℕ) → M → Run (FsResult Nothing × M)
    unfolding then_each
    each [] made = ok (done tt, made)
    each (c ∷ chunks) made = do r ← step made c; then_each (each chunks) r

    -- Calls of `ingest_bytes` on a list of slices, and the rest that `finalize` processes.
    unfoldable pub feed : List ℕ → List (List ℕ) → M → Run (FsResult Nothing × M)
    unfolding add_slice process_rest then_feed
    feed buffer [] made = process_rest step size buffer made
    feed buffer (s ∷ slices) made = do
      r ← add_slice step size buffer s made
      then_feed (λ rest made1. feed rest slices made1) r

    -- One chunk, and what comes after it.
    one_step :
        (r : Run (FsResult Nothing × M)) (k : M → Run (FsResult Nothing × List ℕ × M))
        (rest : List ℕ) (next : List ℕ → M → Run (FsResult Nothing × M)) (chunks : List (List ℕ))
        → ((made : M) → (k made >>= then_feed next) ≡ each chunks made)
        → ((r >>= go_on k rest) >>= then_feed next) ≡ (r >>= then_each (each chunks))
    unfolding go_on then_feed then_each
    one_step panic k rest next chunks h = refl
    one_step (ok (failed e, made)) k rest next chunks h = refl
    one_step (ok (done u, made)) k rest next chunks h = h made

    -- What the loop does with a buffer, and any work on what it leaves of it, where the work is the
    -- same for all that is left and less than a chunk.
    drain_then :
        (fuel : ℕ) (buffer bytes : List ℕ) (made : M)
        (next : List ℕ → M → Run (FsResult Nothing × M))
        → 0 < size
        → length buffer ≤ fuel
        → ((rest : List ℕ) (made1 : M)
            → length rest < size
            → next rest made1 ≡ each (chunk_list size (rest ++ bytes)) made1)
        → (drain step size fuel buffer made >>= then_feed next)
          ≡ each (chunk_list size (buffer ++ bytes)) made
    unfolding drain then_feed each
    drain_then zero buffer bytes made next pos enough same = same buffer made (omega arith)
    drain_then (suc fuel) buffer bytes made next pos enough same =
        elim (leb_cases size (length buffer)) [
          | inr (t, short) ↦ rw (drain, t, then_feed) (same buffer made short)
          | inl (t, full) ↦
              let first = take size buffer in
              let others = drop size buffer in
              rw (drain, t)
                (one_step (step made first) (drain step size fuel others) others next
                    (chunk_list size (others ++ bytes))
                    (λ m.
                      drain_then fuel others bytes m next pos
                        (omega (arith, length-drop size buffer)) same)
                  ∙ sym (ap (λ cs. each cs made) (chunk_list_append size buffer bytes pos full)))
        ]

    last_step : (r : Run (FsResult Nothing × M)) → r ≡ (r >>= then_each (each []))
    unfolding then_each each
    last_step panic = refl
    last_step (ok (failed e, made)) = refl
    last_step (ok (done tt, made)) = refl

    rest_is_chunk :
        (rest : List ℕ) (made : M)
        → length rest < size
        → process_rest step size rest made ≡ each (chunk_list size (rest ++ [])) made
    unfolding process_rest each chunks_on
    rest_is_chunk [] made short = refl
    rest_is_chunk (b ∷ rest) made short =
        last_step (step made (b ∷ rest))
        ∙ sym (
            ap (λ cs. each cs made)
              (ap (chunk_list size) (append-nil (b ∷ rest))
                ∙ chunk_list_short size b rest (omega arith)))

    pub feed_lem :
        (slices : List (List ℕ)) (buffer : List ℕ) (made : M)
        → 0 < size
        → length buffer < size
        → feed buffer slices made ≡ each (chunk_list size (buffer ++ concat slices)) made
    unfolding feed add_slice
    feed_lem [] buffer made pos short = rest_is_chunk buffer made short
    feed_lem (s ∷ slices) buffer made pos short =
        drain_then (length (buffer ++ s)) (buffer ++ s) (concat slices) made
          (λ rest made1. feed rest slices made1) pos (omega arith)
          (λ rest made1 less. feed_lem slices rest made1 pos less)
        ∙ ap (λ b. each (chunk_list size b) made) (append_assoc buffer s (concat slices))
