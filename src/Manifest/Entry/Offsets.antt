-- ===== src/Manifest/Entry/Offsets.antt =====
-- The byte offsets of an entry's chunks, and the chunks that a read of a range needs.
pub mod Ranges
use embeddenator_fs.Prelude.{
  ℕ, zero, suc, ◌+◌, ◌-◌, ◌/◌, ◌^◌, min, Option, none, some, List, [], ◌∷◌, map, Bool, true, false,
  ◌||◌, ltb, leb, ◌==◌, if◌then◌else◌, length, get_elem?,
}
use embeddenator_fs.Prelude.Run.{Run, ok, panic}
use embeddenator_fs.Types.{ChunkOffset, ChunkRange, end_offset, wrap64}
use embeddenator_fs.Manifest.Entry.{VersionedFileEntry, new_entry, new_holographic}

-- The offsets of the chunks from `offset` on.
unfoldable pub offsets_from : ℕ → List ℕ → List ℕ → List ChunkOffset
offsets_from offset [] sizes = []
offsets_from offset (c ∷ cs) [] = []
offsets_from offset (c ∷ cs) (size ∷ sizes) =
    record { chunk_id = c; byte_offset = offset; byte_length = size }
    ∷ offsets_from (wrap64 (offset + size)) cs sizes

unfoldable pub build_offset_index : VersionedFileEntry → List ℕ → Run VersionedFileEntry
unfolding offsets_from
build_offset_index e sizes =
    if length sizes == length e.chunks
    then ok (record e { chunk_offsets = some (offsets_from 0 e.chunks sizes) })
    else panic

unfoldable pub new_with_offsets : List ℕ → Bool → ℕ → List ℕ → List ℕ → Run VersionedFileEntry
unfolding build_offset_index
new_with_offsets path is_text size chunks sizes =
    build_offset_index (new_entry path is_text size chunks) sizes

unfoldable pub new_holographic_with_offsets :
    List ℕ → Bool → ℕ → List ℕ → List ℕ → ℕ → Run VersionedFileEntry
unfolding build_offset_index
new_holographic_with_offsets path is_text size chunks sizes format =
    build_offset_index (new_holographic path is_text size chunks format) sizes

-- The comparison that the search is given: the chunk ends before the byte, holds it or begins after.
pub data Place : Type 0 where
  less equal greater : Place

unfoldable pub place : ℕ → ChunkOffset → Place
place b co = if ltb b co.byte_offset then greater else if leb (end_offset co) b then less else equal

-- A place behind the end does not come up in a search; it counts as behind the byte.
unfoldable pub place_at : ℕ → List ChunkOffset → ℕ → Place
unfolding place
place_at b offsets i = elim (get_elem? offsets i) [ none ↦ greater | some co ↦ place b co ]

abbrev pub is_greater : Place → Bool
is_greater greater = true
is_greater _ = false

-- `while size > 1` of `binary_search_by`, which halves the part from `base` on.
unfoldable pub bisect : ℕ → ℕ → List ChunkOffset → ℕ → ℕ → ℕ
bisect zero b offsets base size = base
bisect (suc fuel) b offsets base size =
    let half = size / 2 in
    let rest =
      bisect fuel b offsets
        (if is_greater (place_at b offsets (base + half)) then base else base + half)
        (size - half) in
    if ltb 1 size then rest else base

-- What `find_chunk_at_offset` makes of the entry where the search stopped.
unfoldable pub found_at : ℕ → Option ChunkOffset → Option (ℕ × ℕ)
unfolding place
found_at b none = none
found_at b (some co) = elim (place b co) [
  | equal ↦ some (co.chunk_id, b - co.byte_offset)
  | _ ↦ none
]

unfoldable pub first_chunk : List ℕ → ℕ → Option (ℕ × ℕ)
first_chunk [] b = none
first_chunk (c ∷ cs) b = some (c, b)

unfoldable pub find_in : Option (List ChunkOffset) → List ℕ → ℕ → Option (ℕ × ℕ)
unfolding found_at bisect first_chunk
find_in none chunks b = first_chunk chunks b
find_in (some offsets) chunks b =
    found_at b (get_elem? offsets (bisect (length offsets) b offsets 0 (length offsets)))

unfoldable pub find_chunk_at_offset : VersionedFileEntry → ℕ → Option (ℕ × ℕ)
unfolding find_in
find_chunk_at_offset e b = if leb e.size b then none else find_in e.chunk_offsets e.chunks b

-- The loop of `chunks_for_range`.
unfoldable pub range_loop : List ChunkOffset → ℕ → ℕ → List ChunkRange
range_loop [] start end = []
range_loop (co ∷ cos) start end =
    let chunk_start = start - co.byte_offset in
    let chunk_end = min (end - co.byte_offset) co.byte_length in
    let range_length = wrap64 (chunk_end + 2 ^ 64 - chunk_start) in
    let rest = range_loop cos start end in
    let range : ChunkRange = record {
      chunk_id = co.chunk_id;
      start_within_chunk = chunk_start;
      length = range_length;
    } in
    if leb (end_offset co) start
    then rest
    else if leb end co.byte_offset
    then []
    else if ltb 0 range_length
    then range ∷ rest
    else rest

unfoldable pub ranges_in : Option (List ChunkOffset) → List ℕ → ℕ → ℕ → List ChunkRange
unfolding range_loop
ranges_in none chunks start end =
    map (λ c. record { chunk_id = c; start_within_chunk = 0; length = 0 }) chunks
ranges_in (some offsets) chunks start end = range_loop offsets start end

unfoldable pub chunks_for_range : VersionedFileEntry → ℕ → ℕ → List ChunkRange
unfolding ranges_in
chunks_for_range e start len =
    if leb e.size start || len == 0
    then []
    else ranges_in e.chunk_offsets e.chunks start (min (wrap64 (start + len)) e.size)

unfoldable last_end : List ChunkOffset → ℕ
unfolding end_offset
last_end [] = 0
last_end (co ∷ []) = end_offset co
last_end (co ∷ next ∷ cos) = last_end (next ∷ cos)

unfoldable pub computed_size : VersionedFileEntry → ℕ
unfolding last_end
computed_size e = elim e.chunk_offsets [ none ↦ e.size | some offsets ↦ last_end offsets ]
