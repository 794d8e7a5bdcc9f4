-- ===== src/Manifest/Entry/Offsets/Ranges.antt =====
-- The ranges of a read, taken from the chunks, are the bytes of the file.
use embeddenator_fs.Prelude.{
  ℕ, zero, suc, ◌+◌, ◌-◌, ◌^◌, ◌<◌, ◌≤◌, ◌≡◌, ◌≢◌, refl, sym, ap, ◌∙◌, min, max, some, List, [],
  ◌∷◌, ◌++◌, ltb, ◌==◌, ==_iff, if◌then◌else◌, length, length-append, length-drop, take, drop,
  take_all, drop_all, arith, Bool-cases, leb_cases, lt→ltb, inl, inr,
}
use embeddenator_fs.Types.{ChunkRange, end_offset, wrap64}
use embeddenator_fs.Manifest.Entry.{VersionedFileEntry}
use embeddenator_fs.Manifest.Entry.Offsets.{offsets_from, range_loop, ranges_in, chunks_for_range}

module _ {ℓ} {A : Type ℓ} where
  abbrev empty : List A
  empty = []

  pub take_nil : (n : ℕ) → take n [] ≡ empty
  take_nil zero = refl
  take_nil (suc n) = refl

  pub drop_nil : (n : ℕ) → drop n [] ≡ empty
  drop_nil zero = refl
  drop_nil (suc n) = refl

  pub take_split :
      (n : ℕ) (xs ys : List A) → take n (xs ++ ys) ≡ take n xs ++ take (n - length xs) ys
  take_split n [] ys =
      let e : n ≡ n - 0 = omega arith in
      ap (λ t. take t ys) e ∙ ap (λ t. t ++ take (n - 0) ys) (sym (take_nil n))
  take_split zero (x ∷ xs) ys =
      let e : 0 - suc (length xs) ≡ 0 = omega arith in ap (λ t. take t ys) (sym e)
  take_split (suc n) (x ∷ xs) ys =
      let e : suc n - suc (length xs) ≡ n - length xs = omega arith in
      ap (λ t. x ∷ t) (take_split n xs ys) ∙ ap (λ t. x ∷ (take n xs ++ take t ys)) (sym e)

  pub drop_split :
      (n : ℕ) (xs ys : List A) → drop n (xs ++ ys) ≡ drop n xs ++ drop (n - length xs) ys
  drop_split n [] ys =
      let e : n ≡ n - 0 = omega arith in
      ap (λ t. drop t ys) e ∙ ap (λ t. t ++ drop (n - 0) ys) (sym (drop_nil n))
  drop_split zero (x ∷ xs) ys =
      let e : 0 - suc (length xs) ≡ 0 = omega arith in ap (λ t. x ∷ (xs ++ drop t ys)) (sym e)
  drop_split (suc n) (x ∷ xs) ys =
      let e : suc n - suc (length xs) ≡ n - length xs = omega arith in
      drop_split n xs ys ∙ ap (λ t. drop n xs ++ drop t ys) (sym e)

  pub take_of_min : (n : ℕ) (xs : List A) → take (min n (length xs)) xs ≡ take n xs
  take_of_min n xs = elim (leb_cases (length xs) n) [
    | inl (_, all) ↦
        take_all (min n (length xs)) xs (omega (arith, all))
        ∙ sym (take_all n xs (omega (arith, all)))
    | inr (_, fewer) ↦ let m : min n (length xs) ≡ n = omega (arith, fewer) in ap (λ t. take t xs) m
  ]

  -- The bytes from `start` to `end` of a list that begins at `o`.
  abbrev pub window : ℕ → ℕ → ℕ → List A → List A
  window o start end xs = take (end - max start o) (drop (start - o) xs)

  pub window-before :
      (o start end : ℕ) (xs ys : List A)
      → o + length xs ≤ start
      → window o start end (xs ++ ys) ≡ window (o + length xs) start end ys
  window-before o start end xs ys before =
      let skipped : drop (start - o) xs ≡ [] = drop_all (start - o) xs (omega (arith, before)) in
      let k : start - o - length xs ≡ start - (o + length xs) = omega arith in
      let m : max start o ≡ max start (o + length xs) = omega (arith, before) in
      rw (drop_split (start - o) xs ys, skipped, k, m) refl

  pub window-inside :
      (o start end : ℕ) (xs ys : List A)
      → start < o + length xs
      → o < end
      → window o start end (xs ++ ys)
        ≡ take (min (end - o) (length xs) - (start - o)) (drop (start - o) xs)
          ++ window (o + length xs) start end ys
  window-inside o start end xs ys reaches inside =
      let n = end - max start o in
      let k = start - o in
      let l = length-drop k xs in
      let a : k - length xs ≡ start - (o + length xs) = omega arith in
      let b : n - length (drop k xs) ≡ end - max start (o + length xs) =
        omega (arith, l, reaches, inside) in
      let m : min (end - o) (length xs) - k ≡ min n (length (drop k xs)) = omega (arith, l) in
      rw
        (
          drop_split k xs ys,
          take_split n (drop k xs) (drop (k - length xs) ys),
          a,
          b,
          m,
          take_of_min n (drop k xs),
        )
        refl

-- What the chunks hold, by their ids.
module _ (content : ℕ → List ℕ) where
  unfoldable pub joined : List ℕ → List ℕ
  joined [] = []
  joined (c ∷ cs) = content c ++ joined cs

  unfoldable pub sizes_of : List ℕ → List ℕ
  sizes_of [] = []
  sizes_of (c ∷ cs) = length (content c) ∷ sizes_of cs

  -- The bytes of ranges, one after the other.
  unfoldable pub read_ranges : List ChunkRange → List ℕ
  read_ranges [] = []
  read_ranges (r ∷ rs) =
      take r.length (drop r.start_within_chunk (content r.chunk_id)) ++ read_ranges rs

  range_step :
      (c size start : ℕ) (rest : List ChunkRange)
      → read_ranges (
          if ltb 0 size
          then record { chunk_id = c; start_within_chunk = start; length = size } ∷ rest
          else rest)
        ≡ take size (drop start (content c)) ++ read_ranges rest
  unfolding read_ranges
  range_step c zero start rest = refl
  range_step c (suc size) start rest = rw (lt→ltb 0 (suc size) (omega arith)) refl

  range_loop_lem :
      (cs : List ℕ) (o start end : ℕ)
      → o + length (joined cs) < 2 ^ 64
      → start < end
      → end < 2 ^ 64
      → read_ranges (range_loop (offsets_from o cs (sizes_of cs)) start end)
        ≡ window o start end (joined cs)
  unfolding joined sizes_of read_ranges offsets_from range_loop end_offset
  range_loop_lem [] o start end small ordered bounded =
      let none_left = ap (take (end - max start o)) (drop_nil {A = ℕ} (start - o)) in
      sym (none_left ∙ take_nil (end - max start o))
  range_loop_lem (c ∷ cs) o start end small ordered bounded =
      let s = length (content c) in
      let total = length-append (content c) (joined cs) in
      let next : wrap64 (o + s) ≡ o + s = omega (arith, small, total) in
      let rest =
        range_loop_lem cs (o + s) start end (omega (arith, small, total)) ordered bounded in
      elim (leb_cases (o + s) start) [
        | inl (is_before, before) ↦
            rw (next, is_before)
              (rest ∙ sym (window-before o start end (content c) (joined cs) before))
        | inr (does_reach, reaches) ↦ elim (leb_cases end o) [
          | inl (is_past, past) ↦
              rw (next, does_reach, is_past)
                (let nothing : end - max start o ≡ 0 = omega (arith, past) in
                  sym (ap (λ t. take t (drop (start - o) (content c ++ joined cs))) nothing))
          | inr (is_inside, inside) ↦
              let part : wrap64 (min (end - o) s + 2 ^ 64 - (start - o))
                  ≡ min (end - o) s - (start - o) =
                omega (arith, reaches, inside, ordered, bounded) in
              rw (next, does_reach, is_inside, part)
                (range_step c (min (end - o) s - (start - o)) (start - o)
                    (range_loop (offsets_from (o + s) cs (sizes_of cs)) start end)
                  ∙ ap
                      (λ t.
                        take (min (end - o) s - (start - o)) (drop (start - o) (content c)) ++ t)
                      rest
                  ∙ sym (window-inside o start end (content c) (joined cs) reaches inside))
        ]
      ]

  -- Reading the ranges that `chunks_for_range` gives for `len` bytes from `start` on returns those
  -- bytes of the file, or what there is of them, when the entry's index was built from its chunks'
  -- sizes, its size is that of the chunks together and no offset overflows.
  pub chunks_for_range-read_ranges :
      (e : VersionedFileEntry) (start len : ℕ)
      → e.chunk_offsets ≡ some (offsets_from 0 e.chunks (sizes_of e.chunks))
      → e.size ≡ length (joined e.chunks)
      → e.size < 2 ^ 64
      → start + len < 2 ^ 64
      → read_ranges (chunks_for_range e start len) ≡ take len (drop start (joined e.chunks))
  unfolding chunks_for_range ranges_in read_ranges
  chunks_for_range-read_ranges e start len indexed sized small bounded =
      elim (leb_cases e.size start) [
        | inl (is_behind, behind) ↦ rw (is_behind) (
            sym (
              ap (take len) (drop_all start (joined e.chunks) (omega (arith, behind, sized)))
              ∙ take_nil len))
        | inr (is_within, within) ↦ elim (Bool-cases (len == 0)) [
          | inl nothing ↦
              let z : len ≡ 0 = (==_iff len 0).0 nothing in
              rw (is_within, nothing) (sym (ap (λ n. take n (drop start (joined e.chunks))) z))
          | inr bytes ↦
              let positive : len ≢ 0 = ground (arith, bytes) in
              let finish = min (wrap64 (start + len)) e.size in
              let tail = drop start (joined e.chunks) in
              let l = length-drop start (joined e.chunks) in
              let start_0 : start - 0 ≡ start = omega arith in
              let n : finish - max start 0 ≡ min len (length tail) =
                omega (arith, l, sized, bounded, within) in
              rw (is_within, bytes, indexed)
                (range_loop_lem e.chunks 0 start finish (omega (arith, sized, small))
                    (omega (arith, within, bounded, positive)) (omega (arith, small))
                  ∙ rw (start_0, n) (take_of_min len tail))
        ]
      ]
