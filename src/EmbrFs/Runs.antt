-- ===== src/EmbrFs/Runs.antt =====
-- Writes and reads on a small codec, which loses the lowest bit of each byte.
use embeddenator_fs.Prelude.{
  ℕ, zero, suc, ◌+◌, ◌*◌, ◌/◌, ◌^◌, ◌<◌, ◌≤◌, ◌≡◌, refl, sym, ap, ◌∙◌, Option, none, some, List, [],
  ◌∷◌, map, Bool, true, false, arith, length, take,
}
use embeddenator_fs.Prelude.{false, All, drop, if◌then◌else◌, ◌==◌}
use embeddenator_fs.Correction.{verbatim, trit_z, apply, apply_correction}
use embeddenator_fs.ChunkStore.{new_chunk, get}
use embeddenator_fs.VersionedCorrections.{get_versioned}
use embeddenator_fs.Manifest.Entry.{VersionedFileEntry, new_entry}
use embeddenator_fs.Manifest.Entry.Offsets.Ranges.{joined}
use embeddenator_fs.EmbrFs.{EmbrFs, done, corrected}
use embeddenator_fs.Prelude.Run.{ok}
use embeddenator_fs.Prelude.Bytes.{bytes_eq}
use embeddenator_fs.EmbrFs.Range.{range_chunk, read_range}
use embeddenator_fs.EmbrFs.Slice.{Reads, read_range-drop}
use embeddenator_fs.Prelude.Assoc.{bytes_key, lookup}
use embeddenator_fs.Manifest.{entry_at, get_file}
use embeddenator_fs.Manifest.Consistent.{new_manifest-IsConsistent}
use embeddenator_fs.EmbrFs.{Codec, new_fs, new_holographic_fs, decode_with}
use embeddenator_fs.EmbrFs.Write.{
  chunks_on, chunk_data, check_version, write_file, compressed, write_file_compressed,
}
use embeddenator_fs.EmbrFs.Encoded.{IsCodec}
use embeddenator_fs.EmbrFs.ReadBack.{
  IsReadBack, read_file-write_file, read_file-write_file_compressed,
}

-- The bytes, cut or filled with zeros to a length.
abbrev pad : ℕ → List ℕ → List ℕ
pad zero v = []
pad (suc n) [] = 0 ∷ pad n []
pad (suc n) (b ∷ v) = b ∷ pad n v

length-pad : (n : ℕ) (v : List ℕ) → length (pad n v) ≡ n
length-pad zero v = refl
length-pad (suc n) [] = ap suc (length-pad n [])
length-pad (suc n) (b ∷ v) = ap suc (length-pad n v)

take-pad : (n k : ℕ) (v : List ℕ) → n ≤ k → take n (pad k v) ≡ pad n v
take-pad zero k v h = refl
take-pad (suc n) zero v h = absurd (omega (arith, h))
take-pad (suc n) (suc k) [] h = ap (λ t. 0 ∷ t) (take-pad n k [] (omega (arith, h)))
take-pad (suc n) (suc k) (b ∷ v) h = ap (λ t. b ∷ t) (take-pad n k v (omega (arith, h)))

abbrev unwrap_small : List ℕ → Option (List ℕ)
unwrap_small [] = none
unwrap_small (c ∷ bytes) = some bytes

-- The state of the reversible encoder counts what was encoded.
abbrev pub small : Codec (List ℕ) ℕ
small = record {
  encode_data = λ bytes path. map (λ b. b / 2 * 2) bytes;
  decode_data = λ v path n. pad n v;
  encode = λ e bytes. (map (λ b. b / 2 * 2) bytes, e + 1);
  decode = λ e v n. pad n v;
  bundle = λ a b. a;
  empty_vector = [];
  new_encoder = 0;
  sha256 = λ bytes. bytes;
  codec_for_path = λ path. length path;
  wrap_or_legacy = λ c bytes. some (c ∷ bytes);
  unwrap_auto = unwrap_small;
}

decoded_small :
    (mode : Bool) (e : ℕ) (v path : List ℕ) (n : ℕ) → decode_with small mode e v path n ≡ pad n v
unfolding decode_with
decoded_small true e v path n = refl
decoded_small false e v path n = refl

small-IsCodec : IsCodec small
small-IsCodec = record {
  sized = λ mode e v path n. ap length (decoded_small mode e v path n) ∙ length-pad n v;
  nested = λ mode e v path n k h.
      ap (take n) (decoded_small mode e v path k)
      ∙ take-pad n k v h
      ∙ sym (decoded_small mode e v path n);
  stable = λ mode e bytes w path path' n.
      decoded_small mode _ w path n ∙ sym (decoded_small mode e w path n);
}

one_chunk : 1 + length (chunk_data (9 ∷ 8 ∷ 7 ∷ [])) < 2 ^ 64
unfolding chunks_on
one_chunk = omega arith

one_chunk_stored : 1 + length (chunk_data (2 ∷ 9 ∷ 8 ∷ [])) < 2 ^ 64
unfolding chunks_on
one_chunk_stored = omega arith

is_new : (path : List ℕ) → check_version path (get_file (new_fs small).manifest path) none ≡ none
unfolding check_version get_file entry_at lookup
is_new path = refl

compressed-small : compressed small (47 ∷ 97 ∷ []) (9 ∷ 8 ∷ []) ≡ some (2 ∷ 9 ∷ 8 ∷ [], 2)
unfolding compressed
compressed-small = refl

unwraps_small_lem :
    (c : ℕ) (w : List ℕ)
    → small.wrap_or_legacy c (9 ∷ 8 ∷ []) ≡ some w
    → unwrap_small w ≡ some (9 ∷ 8 ∷ [])
unwraps_small_lem c w h = ap (λ o. elim o [ none ↦ none | some x ↦ unwrap_small x ]) (sym h)

read_file-write_file_example :
    IsReadBack small
      (new_holographic_fs small)
      (47 ∷ [])
      (9 ∷ 8 ∷ 7 ∷ [])
      (write_file small (new_holographic_fs small) (47 ∷ []) (9 ∷ 8 ∷ 7 ∷ []) none)
read_file-write_file_example =
    read_file-write_file small (new_holographic_fs small) (47 ∷ []) (9 ∷ 8 ∷ 7 ∷ []) none
      small-IsCodec new_manifest-IsConsistent (is_new (47 ∷ [])) one_chunk

read_file-write_file_compressed_example :
    IsReadBack small
      (new_fs small)
      (47 ∷ 97 ∷ [])
      (9 ∷ 8 ∷ [])
      (write_file_compressed small (new_fs small) (47 ∷ 97 ∷ []) (9 ∷ 8 ∷ []) none)
read_file-write_file_compressed_example =
    read_file-write_file_compressed small (new_fs small) (47 ∷ 97 ∷ []) (9 ∷ 8 ∷ [])
      (2 ∷ 9 ∷ 8 ∷ []) 2 none small-IsCodec compressed-small unwraps_small_lem
      new_manifest-IsConsistent (is_new (47 ∷ 97 ∷ [])) one_chunk_stored

-- A file of two chunks, of which one has a correction.
abbrev two_bytes : ℕ → List ℕ
two_bytes c = if c == 7 then 10 ∷ 12 ∷ 14 ∷ [] else 21 ∷ 22 ∷ []

abbrev two_entry : VersionedFileEntry
two_entry = new_entry (97 ∷ []) false 5 (7 ∷ 8 ∷ [])

abbrev two_chunks : EmbrFs (List ℕ) ℕ
two_chunks = record (new_fs small) {
  chunk_store = record {
    chunks = (7, new_chunk (10 ∷ 12 ∷ 14 ∷ []) 3 []) ∷ (8, new_chunk (20 ∷ 22 ∷ []) 2 []) ∷ [];
    global_version = 4;
    hash_index = [];
  };
  corrections = record {
    corrections =
        (
          8,
          record { chunk_id = 8; correction = verbatim (21 ∷ 22 ∷ []); hash = []; parity = trit_z },
        )
        ∷ [];
    total_chunks = 1;
    version = 1;
  };
  manifest = record {
    files = two_entry ∷ [];
    file_index = (97 ∷ [], 0) ∷ [];
    global_version = 1;
    total_chunks = 2;
  };
}

two_chunks-Reads : All (Reads small two_chunks (97 ∷ []) two_bytes) (7 ∷ 8 ∷ [])
unfolding get lookup range_chunk corrected get_versioned apply apply_correction
two_chunks-Reads = ((_, _, refl, refl, refl), ((_, _, refl, refl, refl), tt))

five_bytes : 5 ≡ length (joined two_bytes (7 ∷ 8 ∷ []))
unfolding joined
five_bytes = refl

two_chunks_shown : get_file two_chunks.manifest (97 ∷ []) ≡ some (two_entry, 1)
unfolding get_file entry_at lookup bytes_eq
two_chunks_shown = refl

read_range-drop_example :
    read_range small two_chunks (97 ∷ []) 2 2
    ≡ ok (done (take 2 (drop 2 (joined two_bytes (7 ∷ 8 ∷ []))), 0))
read_range-drop_example =
    read_range-drop small two_chunks (97 ∷ []) two_entry 1 two_bytes 2 2 two_chunks_shown refl refl
      two_chunks-Reads five_bytes (omega arith)
