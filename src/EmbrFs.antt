-- ===== src/EmbrFs.antt =====
-- src/fs/versioned_embrfs.rs: the file system that composes the manifest, the chunk store and the
-- corrections. The calls are modelled one at a time, so that the loop that replaces the root succeeds
-- at once. What other crates do is the record `Codec`; the errors of I/O and of invalid operations lose their text.
pub mod Write
pub mod Mends
pub mod Encoded
pub mod RoundTrip
pub mod Written
pub mod ReadBack
pub mod Range
pub mod Patch
pub mod Patched
pub mod Slice
pub mod Runs
use embeddenator_fs.Prelude.{
  ℕ, ◌+◌, Option, none, some, List, [], ◌∷◌, ◌++◌, Bool, true, false, not, ◌==◌, if◌then◌else◌,
  length, take,
}
use embeddenator_fs.Prelude.Run.{Run, ok, panic, ◌>>=◌}
use embeddenator_fs.Types.{VersionedResult, ok as version_ok, err, VersionMismatch, wrap64}
use embeddenator_fs.Correction.{ChunkCorrection, apply}
use embeddenator_fs.ChunkStore.{ChunkStore, VersionedChunk, new_store, get}
use embeddenator_fs.VersionedCorrections.{VersionedCorrectionStore, new_corrections, get_versioned}
use embeddenator_fs.Manifest.{Manifest, new_manifest, get_file, remove_file, list_files}
use embeddenator_fs.Manifest.Entry.{VersionedFileEntry}

-- What the code calls of other crates: the two encoders, of which the reversible one has a state `E`,
-- bundling, the digest, and compression with the codec that is chosen for a path.
pub record Codec {ℓ} (V E : Type ℓ) : Type ℓ where
  pub encode_data : List ℕ → List ℕ → V
  pub decode_data : V → List ℕ → ℕ → List ℕ
  pub encode : E → List ℕ → V × E
  pub decode : E → V → ℕ → List ℕ
  pub bundle : V → V → V
  pub empty_vector : V
  pub new_encoder : E
  pub sha256 : List ℕ → List ℕ
  pub codec_for_path : List ℕ → ℕ
  pub wrap_or_legacy : ℕ → List ℕ → Option (List ℕ)
  pub unwrap_auto : List ℕ → Option (List ℕ)

pub data EmbrFsError : Type 0 where
  file_not_found : List ℕ → EmbrFsError
  chunk_not_found : ℕ → EmbrFsError
  version_mismatch : ℕ → ℕ → EmbrFsError
  file_exists : List ℕ → EmbrFsError
  io_error : EmbrFsError
  invalid_operation : EmbrFsError

pub data FsResult {ℓ} (A : Type ℓ) : Type ℓ where
  done : A → FsResult A
  failed : EmbrFsError → FsResult A

abbrev pub Nothing : Type 0
Nothing = Unit

unfoldable pub from_mismatch : VersionMismatch → EmbrFsError
from_mismatch m = version_mismatch m.expected m.actual

pub record EmbrFs {ℓ} (V E : Type ℓ) : Type ℓ where
  pub root : V
  pub root_version : ℕ
  pub chunk_store : ChunkStore V
  pub corrections : VersionedCorrectionStore
  pub manifest : Manifest
  pub global_version : ℕ
  pub next_chunk_id : ℕ
  pub reversible_encoder : E
  pub holographic_mode : Bool

abbrev pub default_chunk_size : ℕ
default_chunk_size = 4096

abbrev pub encoding_format_reversible_vsa : ℕ
encoding_format_reversible_vsa = 1

-- `encoding_format == Some(ENCODING_FORMAT_REVERSIBLE_VSA)`
unfoldable pub is_reversible : Option ℕ → Bool
is_reversible none = false
is_reversible (some format) = format == encoding_format_reversible_vsa

unfoldable pub prepend : List ℕ → FsResult (List ℕ) → FsResult (List ℕ)
prepend bytes (done rest) = done (bytes ++ rest)
prepend bytes (failed e) = failed e

module _ {ℓ} {V E : Type ℓ} where
  abbrev pub next_fs_version : EmbrFs V E → EmbrFs V E
  next_fs_version fs = record fs { global_version = wrap64 (fs.global_version + 1) }

  -- A change of the manifest, and of the global version where it is made.
  unfoldable pub deleted_from :
      EmbrFs V E → VersionedResult ℕ × Manifest → FsResult Nothing × EmbrFs V E
  unfolding from_mismatch
  deleted_from fs (version_ok v, m) = (done tt, next_fs_version (record fs { manifest = m }))
  deleted_from fs (err e, m) = (failed (from_mismatch e), record fs { manifest = m })

  unfoldable pub delete_file : EmbrFs V E → List ℕ → ℕ → Run (FsResult Nothing × EmbrFs V E)
  unfolding remove_file deleted_from
  delete_file fs path expected_version = do
    r ← remove_file fs.manifest path expected_version
    ok (deleted_from fs r)

  unfoldable pub exists_file : EmbrFs V E → List ℕ → Bool
  unfolding get_file
  exists_file fs path = elim (get_file fs.manifest path) [
    | none ↦ false
    | some (e, version) ↦ not e.deleted
  ]

  -- The correction of a chunk, applied where there is one.
  unfoldable pub corrected : EmbrFs V E → ℕ → List ℕ → List ℕ
  corrected fs chunk_id decoded = elim (get_versioned fs.corrections chunk_id) [
    | none ↦ decoded
    | some (c, version) ↦ apply c decoded
  ]

module _ {ℓ} {V E : Type ℓ} (codec : Codec V E) where
  abbrev pub new_fs : EmbrFs V E
  new_fs = record {
    root = codec.empty_vector;
    root_version = 0;
    chunk_store = new_store;
    corrections = new_corrections;
    manifest = new_manifest;
    global_version = 0;
    next_chunk_id = 1;
    reversible_encoder = codec.new_encoder;
    holographic_mode = false;
  }

  abbrev pub enable_holographic_mode : EmbrFs V E → EmbrFs V E
  enable_holographic_mode fs = record fs { holographic_mode = true }

  abbrev pub new_holographic_fs : EmbrFs V E
  new_holographic_fs = enable_holographic_mode new_fs

  -- The decoder of a format.
  unfoldable pub decode_with : Bool → E → V → List ℕ → ℕ → List ℕ
  decode_with true encoder vector path size = codec.decode encoder vector size
  decode_with false encoder vector path size = codec.decode_data vector path size

  -- The encoder of a format, with the state that it leaves.
  unfoldable pub encode_with : Bool → E → List ℕ → List ℕ → V × E
  encode_with true encoder bytes path = codec.encode encoder bytes
  encode_with false encoder bytes path = (codec.encode_data bytes path, encoder)

  unfoldable pub encode_chunk : EmbrFs V E → List ℕ → List ℕ → V × EmbrFs V E
  unfolding encode_with
  encode_chunk fs bytes path =
      let r = encode_with fs.holographic_mode fs.reversible_encoder bytes path in
      (r.0, record fs { reversible_encoder = r.1 })

  unfoldable pub decode_chunk : EmbrFs V E → V → List ℕ → ℕ → List ℕ
  unfolding decode_with
  decode_chunk fs vector path original_size =
      decode_with fs.holographic_mode fs.reversible_encoder vector path original_size

  unfoldable pub decode_chunk_with_format : EmbrFs V E → V → List ℕ → ℕ → Option ℕ → List ℕ
  unfolding decode_with is_reversible
  decode_chunk_with_format fs vector path original_size format =
      decode_with (is_reversible format) fs.reversible_encoder vector path original_size

  -- The loop of `read_file` over the chunks.
  unfoldable pub read_chunks : EmbrFs V E → Option ℕ → List ℕ → List ℕ → FsResult (List ℕ)
  unfolding decode_chunk_with_format corrected prepend get
  read_chunks fs format path [] = done []
  read_chunks fs format path (chunk_id ∷ ids) =
      let rest = read_chunks fs format path ids in
      elim (get fs.chunk_store chunk_id) [
        | none ↦ failed (chunk_not_found chunk_id)
        | some (chunk, version) ↦
            prepend
              (corrected fs chunk_id
                (decode_chunk_with_format fs chunk.vector path default_chunk_size format))
              rest
      ]

  -- Bytes that a codec compressed are expanded.
  unfoldable pub expand : Option ℕ → List ℕ → FsResult (List ℕ)
  expand none bytes = done bytes
  expand (some c) bytes =
      if c == 0
      then done bytes
      else elim (codec.unwrap_auto bytes) [ none ↦ failed io_error | some final ↦ done final ]

  unfoldable pub finish_read : VersionedFileEntry → FsResult (List ℕ) → FsResult (List ℕ × ℕ)
  unfolding expand
  finish_read e (failed error) = failed error
  finish_read e (done bytes) = elim (expand e.compression_codec (take e.size bytes)) [
    | failed error ↦ failed error
    | done final ↦ done (final, e.version)
  ]

  unfoldable pub read_file : EmbrFs V E → List ℕ → FsResult (List ℕ × ℕ)
  unfolding read_chunks finish_read get_file
  read_file fs path = elim (get_file fs.manifest path) [
    | none ↦ failed (file_not_found path)
    | some (e, version) ↦
        if e.deleted
        then failed (file_not_found path)
        else finish_read e (read_chunks fs e.encoding_format e.path e.chunks)
  ]
