-- ===== src/Streaming/Runs.antt =====
-- Runs of the streaming ingester and decoder, and the witnesses of their theorems.
use embeddenator_fs.Prelude.{ℕ, ◌≡◌, refl, none, some, List, [], ◌∷◌, ◌++◌, replicate, take, arith}
use embeddenator_fs.Prelude.Run.{◌>>=◌}
use embeddenator_fs.Prelude.Assoc.{nat_key, lookup}
use embeddenator_fs.ChunkStore.{new_store, new_chunk, get}
use embeddenator_fs.VersionedCorrections.{get_versioned}
use embeddenator_fs.EmbrFs.{
  Codec, done, new_fs, decode_with, is_reversible, decode_chunk_with_format, corrected,
}
use embeddenator_fs.Streaming.Slices.{chunk_list, concat, each}
use embeddenator_fs.Streaming.Ingester.{StreamingIngester, process_chunk}
use embeddenator_fs.Streaming.Ingester.Laws.{ingest_all, without_buffer, ingest_all-each}
use embeddenator_fs.Streaming.Decoder.{StreamingDecoder, chunk_bytes, seek_to, read_n_bytes}
use embeddenator_fs.Streaming.Remaining.{ReadTo}
use embeddenator_fs.Streaming.Reads.{read_n_bytes-ReadTo, read_n_bytes-seek_to}

-- A codec whose vectors are the bytes themselves.
abbrev plain : Codec (List ℕ) ℕ
plain = record {
  encode_data = λ bytes path. bytes;
  decode_data = λ v path n. take n (v ++ replicate n 0);
  encode = λ e bytes. (bytes, e);
  decode = λ e v n. take n (v ++ replicate n 0);
  bundle = λ a b. a;
  empty_vector = [];
  new_encoder = 0;
  sha256 = λ bytes. replicate 32 0;
  codec_for_path = λ path. 0;
  wrap_or_legacy = λ c bytes. some bytes;
  unwrap_auto = λ bytes. some bytes;
}

abbrev pairs : StreamingIngester (List ℕ) ℕ
pairs = record {
  path = 97 ∷ [];
  chunk_size = 2;
  expected_version = none;
  compression = none;
  buffer = [];
  total_bytes = 0;
  made = record { fs = new_fs plain; pending_chunks = []; chunk_ids = []; correction_bytes = 0 };
}

abbrev three_slices : List (List ℕ)
three_slices = (1 ∷ []) ∷ (2 ∷ 3 ∷ 4 ∷ []) ∷ (5 ∷ []) ∷ []

ingest_all-each_example :
    (ingest_all plain pairs three_slices >>= without_buffer plain)
    ≡ each (process_chunk plain (97 ∷ []) none) 2 (chunk_list 2 (concat three_slices)) pairs.made
ingest_all-each_example = ingest_all-each plain pairs three_slices refl (omega arith)

-- A file of two chunks.
abbrev two_chunks : StreamingDecoder (List ℕ) ℕ
two_chunks = record {
  fs = record (new_fs plain) {
    chunk_store = record new_store {
      chunks = (1, new_chunk (5 ∷ 6 ∷ 7 ∷ []) 3 []) ∷ (2, new_chunk (8 ∷ 9 ∷ []) 2 []) ∷ [];
    };
  };
  path = 97 ∷ [];
  chunks = 1 ∷ 2 ∷ [];
  file_size = 5;
  version = 0;
  current_chunk_idx = 0;
  current_chunk_data = [];
  position_in_chunk = 0;
  total_bytes_read = 0;
  encoding_format = none;
}

first_chunk : chunk_bytes plain two_chunks.fs (97 ∷ []) none 1 ≡ done (5 ∷ 6 ∷ 7 ∷ [])
unfolding chunk_bytes get lookup decode_chunk_with_format decode_with is_reversible corrected
    get_versioned
first_chunk = refl

second_chunk : chunk_bytes plain two_chunks.fs (97 ∷ []) none 2 ≡ done (8 ∷ 9 ∷ [])
unfolding chunk_bytes get lookup decode_chunk_with_format decode_with is_reversible corrected
    get_versioned
second_chunk = refl

read_n_bytes-ReadTo_example :
    ReadTo plain two_chunks 4 (5 ∷ 6 ∷ 7 ∷ 8 ∷ 9 ∷ []) (read_n_bytes plain two_chunks 4)
read_n_bytes-ReadTo_example =
    read_n_bytes-ReadTo plain two_chunks 4 ((5 ∷ 6 ∷ 7 ∷ []) ∷ (8 ∷ 9 ∷ []) ∷ [])
      (5 ∷ 6 ∷ 7 ∷ 8 ∷ 9 ∷ []) (1 ∷ 2 ∷ [], refl, (first_chunk, (second_chunk, tt)), refl)
      (omega arith) (omega arith)

read_n_bytes-seek_to_example :
    (read_n_bytes plain (seek_to plain two_chunks 1).1 4).0 ≡ done (6 ∷ 7 ∷ 5 ∷ 6 ∷ [])
read_n_bytes-seek_to_example =
    read_n_bytes-seek_to plain two_chunks 1 4 1 (2 ∷ []) (5 ∷ 6 ∷ 7 ∷ []) ((8 ∷ 9 ∷ []) ∷ [])
      (omega arith) (omega arith) refl (first_chunk, (second_chunk, tt))
