-- ===== src/Delta/Chunks.antt =====
-- Which chunks a truncation, a deletion and an insertion remove or encode again.
use embeddenator_fs.Prelude.{
  ℕ, zero, suc, ◌+◌, ◌-◌, ◌*◌, ◌/◌, ◌<◌, ◌≤◌, ◌≡◌, ◌≢◌, ◌↔◌, none, List, [], ◌∷◌, Bool, true, false,
  ◌&&◌, ◌||◌, ltb, leb, ◌==◌, arith, Bool-cases, inl, inr,
}
use native.Mathlib.Nat.{div-lt_iff_lt-mul}
use embeddenator_fs.Delta.{
  delete, truncate, chunk_ids, get_chunk_id, chunk_offset_at, div_ceil, analyze_delta,
  analyze_delete, analyze_truncate,
}
use embeddenator_fs.Delta.Appended.{div_ceil-le_iff}

unfoldable pub listed : ℕ → List ℕ → Bool
listed k [] = false
listed k (i ∷ is) = (i == k) || listed k is

none_listed : (k : ℕ) → listed k [] ≢ true
unfolding listed
none_listed k h = cc

-- The chunk ids from a first one, without an offset index.
listed-chunk_ids :
    (k first count : ℕ)
    → listed k (chunk_ids none first count) ≡ (leb first k && ltb k (first + count))
unfolding listed chunk_ids get_chunk_id chunk_offset_at
listed-chunk_ids k first zero = ground arith
listed-chunk_ids k first (suc count) = ground (arith, listed-chunk_ids k (first + 1) count)

-- A chunk id is past the chunks of `a` bytes and among those of `b` bytes.
listed_between :
    (a b k s : ℕ)
    → 0 < s
    → (listed k (chunk_ids none (div_ceil a s) (div_ceil b s - div_ceil a s)) ≡ true)
      ↔ ((a ≤ k * s) × (k * s < b))
listed_between a b k s h =
    let past = div_ceil-le_iff a k s h in
    let among = div_ceil-le_iff b k s h in
    (
      λ p. (
        ground (arith, p, listed-chunk_ids k (div_ceil a s) (div_ceil b s - div_ceil a s), past),
        ground (arith, p, listed-chunk_ids k (div_ceil a s) (div_ceil b s - div_ceil a s), among),
      ),
      λ (p, q). ground (
        arith,
        p,
        q,
        listed-chunk_ids k (div_ceil a s) (div_ceil b s - div_ceil a s),
        past,
        among,
      ),
    )

-- A chunk id holds `offset` or comes after it, and is among the chunks of `b` bytes.
listed_from :
    (offset b k s : ℕ)
    → 0 < s
    → (listed k (chunk_ids none (offset / s) (div_ceil b s - offset / s)) ≡ true)
      ↔ ((offset < (k + 1) * s) × (k * s < b))
listed_from o b k s h =
    let past = div-lt_iff_lt-mul {x = o} {y = k + 1} h in
    let among = div_ceil-le_iff b k s h in
    (
      λ p. (
        ground (arith, p, listed-chunk_ids k (o / s) (div_ceil b s - o / s), past),
        ground (arith, p, listed-chunk_ids k (o / s) (div_ceil b s - o / s), among),
      ),
      λ (p, q).
          ground (arith, p, q, listed-chunk_ids k (o / s) (div_ceil b s - o / s), past, among),
    )

-- A truncation to fewer bytes removes chunk `k` just when the chunk begins in the file and at or
-- after its new end, without an offset index and with a positive chunk size.
pub truncate-removed_chunks :
    (new_length k file_size chunk_size : ℕ) (truncated : List ℕ)
    → 0 < chunk_size
    → new_length < file_size
    → (listed k
          (analyze_delta (truncate new_length truncated) file_size chunk_size none).removed_chunks
        ≡ true)
      ↔ ((new_length ≤ k * chunk_size) × (k * chunk_size < file_size))
unfolding analyze_delta analyze_truncate
truncate-removed_chunks n k f s d h less =
    let shorter : leb f n ≡ false = ground arith in rw shorter (listed_between n f k s h)

-- A deletion removes chunk `k` just when the chunk begins in the file and not in the shorter file,
-- and encodes it again just when the chunk begins in the file and ends after the deletion's offset.
-- There is no offset index, and the chunk size is positive.
pub delete-removed_chunks-reencoded_chunks :
    (offset len k file_size chunk_size : ℕ) (deleted : List ℕ)
    → 0 < chunk_size
    → ((listed k
            (analyze_delta (delete offset len deleted) file_size chunk_size none).removed_chunks
          ≡ true)
        ↔ ((file_size - len ≤ k * chunk_size) × (k * chunk_size < file_size)))
      × ((listed k
              (analyze_delta (delete offset len deleted) file_size chunk_size none).reencoded_chunks
            ≡ true)
          ↔ ((offset < (k + 1) * chunk_size) × (k * chunk_size < file_size)))
unfolding analyze_delta analyze_delete
delete-removed_chunks-reencoded_chunks o len k f s d h = (
  elim (Bool-cases (ltb (div_ceil (f - len) s) (div_ceil f s))) [
    | inl e ↦ rw e (listed_between (f - len) f k s h)
    | inr e ↦ rw e (
      λ p. absurd (none_listed k p),
      λ (p, q).
          absurd
            (ground (arith, e, p, q, div_ceil-le_iff (f - len) k s h, div_ceil-le_iff f k s h)),
    )
  ],
  listed_from o f k s h,
)
